-- ===== src/FileDevice/Load.antt =====
-- `LoadFileImpl` of res_systemfiledevice.win32.hpp.
use Prim.Native.Nat.{bit_and}
use dd_framework.Base.{
  ℕ, zero, suc, ◌-◌, Bool, true, not, ◌&&◌, List, [], ◌∷◌, ◌++◌, Option, none, some, leb, ◌==◌,
  if◌then◌else◌, add64, Run, ok, out_of_fuel, ◌>>=◌,
}
use dd_framework.Alignment.{align_down}
use dd_framework.ResultCode.{result_success}
use dd_framework.FileDevice.Results.{
  result_invalid_file_buffer_size, result_invalid_read_div_alignment,
}
use dd_framework.FileDevice.{
  System, FileHandle, FilePath, empty_handle, open_mode_read, open_file_impl, close_file_impl,
  get_file_size_impl,
}

pub record FileLoadContext : Type 0 where
  pub out_file : ℕ
  pub file_path : FilePath
  pub file_size : ℕ
  pub read_div : ℕ
  pub is_heap_allocated : Bool

-- A call of `TryReadFile`: the offset in the buffer and the number of bytes.
abbrev pub Read : Type 0
Read = ℕ × ℕ

-- The reads of whole parts, up to `remaining`.
unfoldable pub read_loop : ℕ → ℕ → ℕ → ℕ → Run (List Read)
read_loop zero div_size remaining offset = out_of_fuel
read_loop (suc rounds) div_size remaining offset =
    let rest = read_loop rounds div_size remaining (add64 offset div_size) >>= λ reads.
    ok ((offset, div_size) ∷ reads) in
    if offset == remaining then ok [] else rest

-- The buffer: new memory of the heap, or the caller's, where the file fits into it.
unfoldable pub take_buffer : (ℕ → ℕ) → FileLoadContext → ℕ → Option FileLoadContext
take_buffer allocate c size =
    if c.out_file == 0
    then some (record c { out_file = allocate size; file_size = size; is_heap_allocated = true })
    else if leb size c.file_size
    then some c
    else none

-- What is left of the context, the reads in order, and the result.
pub record Loaded : Type 0 where
  pub context : FileLoadContext
  pub reads : List Read
  pub result : ℕ

abbrev pub nothing_read : FileLoadContext → ℕ → Run Loaded
nothing_read c r = ok (record { context = c; reads = []; result = r })

module _ (system : System) (format_path : List ℕ → ℕ × List ℕ) (allocate : ℕ → ℕ) where
  unfoldable pub load_opened : ℕ → FileLoadContext → Option FileHandle → Run Loaded
  load_opened rounds c handle =
      let (file_size, size_result) = get_file_size_impl system format_path handle in
      let size : ℕ = elim file_size [ none ↦ 0 | some s ↦ s ] in
      let remaining = align_down size c.read_div in
      let loaded : FileLoadContext → Run Loaded = λ c'.
        read_loop rounds c.read_div remaining 0 >>= λ reads. ok (record {
          context = c';
          reads = reads ++ ((remaining, size - remaining) ∷ []);
          result = (close_file_impl system format_path handle).1;
        }) in
      if not (size_result == result_success)
      then nothing_read c size_result
      else elim (take_buffer allocate c size) [
        | none ↦ nothing_read c result_invalid_file_buffer_size
        | some c' ↦ loaded c'
      ]

  unfoldable pub load_file_impl : ℕ → FileLoadContext → Run Loaded
  load_file_impl rounds c =
      let (handle, open_result) =
        open_file_impl system format_path (some empty_handle) c.file_path open_mode_read in
      let loaded = load_opened rounds c handle in
      if not (not (c.out_file == 0) && c.file_size == 0)
      then nothing_read c result_invalid_file_buffer_size
      else if bit_and c.read_div 0x1f == 0
      then nothing_read c result_invalid_read_div_alignment
      else if not (open_result == result_success)
      then nothing_read c open_result
      else loaded
