-- ===== src/FileDevice.antt =====
-- libraries/lib_dd/include/dd/res/res_systemfiledevice.win32.hpp and the structures of
-- res_filedevicebase.hpp. The operating system's calls and the device's `FormatPath` are parameters;
-- of `GetLastError`, the value that it has after a call that fails.
pub mod Results
pub mod Calls
pub mod Load
pub mod Empty
mod Tests
use Prim.Native.Nat.{bit_and}
use dd_framework.Base.{
  ℕ, zero, suc, ◌+◌, ◌-◌, ◌*◌, ◌^◌, Bool, true, false, not, ◌&&◌, ◌||◌, List, [], ◌∷◌, ◌++◌, Option,
  none, some, ltb, leb, ◌==◌, if◌then◌else◌, add64, Run, ok, fault, out_of_fuel, ◌>>=◌,
}
use dd_framework.Alignment.{align_down}
use dd_framework.ResultCode.{result_success}
use dd_framework.FileDevice.Results.{
  result_file_not_found, result_path_not_found, result_file_sharing_violation,
  result_file_lock_violation, result_open_file_exhaustion, result_unknown_win32_error,
  result_null_handle, result_null_path, result_invalid_open_mode, result_file_size_retrieval_failed,
  result_invalid_handle, result_invalid_file_buffer_size, result_invalid_read_div_alignment,
  result_null_out_buffer, result_invalid_size,
}

-- A text is its characters; a null text is none.
abbrev pub FilePath : Type 0
FilePath = Option (List ℕ)

pub record FileHandle : Type 0 where
  pub win32_handle : ℕ
  pub file_offset : ℕ
  pub file_size : ℕ

abbrev pub empty_handle : FileHandle
empty_handle = record { win32_handle = 0; file_offset = 0; file_size = 0 }

abbrev pub invalid_handle_value : ℕ
invalid_handle_value = 2 ^ 64 - 1

-- The system's calls. A `BOOL` is a number, and 0 is failure.
pub record System : Type 0 where
  pub create_file : FilePath → ℕ
  pub get_file_size_ex : ℕ → ℕ × ℕ
  pub close_handle : ℕ → Bool
  pub set_file_pointer_ex : ℕ → ℕ → ℕ
  pub read_file : ℕ → ℕ → Bool
  pub flush_file_buffers : ℕ → Bool
  pub get_file_attributes : List ℕ → ℕ
  pub last_error : ℕ

-- `GENERIC_READ | GENERIC_WRITE | 0x1`.
abbrev pub open_mode_read_write_append : ℕ
open_mode_read_write_append = 2 ^ 31 + 2 ^ 30 + 1

abbrev pub open_mode_read : ℕ
open_mode_read = 2 ^ 31

abbrev pub invalid_file_attributes : ℕ
invalid_file_attributes = 2 ^ 32 - 1

unfoldable pub convert_win32_error_to_result : System → ℕ
convert_win32_error_to_result system =
    let last_error = system.last_error in
    if last_error == 2
    then result_file_not_found
    else if last_error == 3
    then result_path_not_found
    else if last_error == 32
    then result_file_sharing_violation
    else if last_error == 33
    then result_file_lock_violation
    else if last_error == 4
    then result_open_file_exhaustion
    else result_unknown_win32_error

abbrev pub is_open : FileHandle → Bool
is_open handle = not (handle.win32_handle == 0) && not (handle.win32_handle == invalid_handle_value)

-- The two tests that begin the calls on a handle, which may be null.
abbrev pub with_handle {ℓ} : {A : Type ℓ} → Option FileHandle → (ℕ → A) → (FileHandle → A) → A
with_handle none fail go = fail result_null_handle
with_handle (some handle) fail go = if is_open handle then go handle else fail result_invalid_handle

module _ (system : System) (format_path : List ℕ → ℕ × List ℕ) where
  -- The part behind `CreateFile`.
  unfoldable pub opened : FileHandle → ℕ → FileHandle × ℕ
  opened out_file_handle win32_handle =
      let (succeeded, size) = system.get_file_size_ex win32_handle in
      let handle = record out_file_handle { win32_handle = win32_handle } in
      let sized = record handle { file_size = size } in
      if win32_handle == invalid_handle_value
      then (handle, convert_win32_error_to_result system)
      else if succeeded == 1
      then (sized, result_file_size_retrieval_failed)
      else (sized, result_success)

  unfoldable pub open_file_impl : Option FileHandle → FilePath → ℕ → Option FileHandle × ℕ
  open_file_impl none path open_mode = (none, result_null_handle)
  open_file_impl (some out) none open_mode = (some out, result_null_path)
  open_file_impl (some out) (some path) open_mode =
      let format_result = (format_path path).0 in
      let (handle, result) = opened out (system.create_file (some path)) in
      if bit_and open_mode open_mode_read_write_append == 0
      then (some out, result_invalid_open_mode)
      else if not (format_result == result_success)
      then (some out, format_result)
      else (some handle, result)

  unfoldable pub close_file_impl : Option FileHandle → Option FileHandle × ℕ
  close_file_impl file_handle =
      with_handle file_handle (λ r. (file_handle, r))
        (λ handle.
          if system.close_handle handle.win32_handle
          then (some empty_handle, result_success)
          else (file_handle, convert_win32_error_to_result system))

  unfoldable pub read_file_impl : Option FileHandle → ℕ → ℕ
  read_file_impl file_handle read_size =
      with_handle file_handle (λ r. r)
        (λ handle.
          let set_result = system.set_file_pointer_ex handle.win32_handle handle.file_offset in
          if not (set_result == 0)
          then convert_win32_error_to_result system
          else if system.read_file handle.win32_handle read_size
          then result_success
          else convert_win32_error_to_result system)

  -- `WriteFileImpl` ends without a `return` where its arguments are accepted.
  unfoldable pub write_file_impl : Option FileHandle → ℕ → ℕ → Run ℕ
  write_file_impl file_handle write_buffer write_size =
      with_handle file_handle (λ r. ok r)
        (λ handle.
          if write_buffer == 0
          then ok result_null_out_buffer
          else if write_size == 0
          then ok result_invalid_size
          else fault)

  unfoldable pub flush_file_impl : Option FileHandle → ℕ
  flush_file_impl file_handle =
      with_handle file_handle (λ r. r)
        (λ handle.
          if system.flush_file_buffers handle.win32_handle
          then result_success
          else convert_win32_error_to_result system)

  -- The size, where there is one, and the result.
  unfoldable pub get_file_size_impl : Option FileHandle → Option ℕ × ℕ
  get_file_size_impl file_handle =
      with_handle file_handle (λ r. (none, r)) (λ handle. (some handle.file_size, result_success))

  unfoldable pub get_file_size_of_path : FilePath → Option ℕ × ℕ
  get_file_size_of_path none = (none, result_null_path)
  get_file_size_of_path (some path) =
      let (format_result, formatted_path) = format_path path in
      let (handle, open_result) =
        open_file_impl (some empty_handle) (some formatted_path) open_mode_read in
      let size : Option ℕ = elim handle [ none ↦ none | some h ↦ some h.file_size ] in
      let (closed, close_result) = close_file_impl handle in
      if not (format_result == result_success)
      then (none, format_result)
      else if not (open_result == result_success)
      then (none, open_result)
      else if not (close_result == result_success)
      then (size, close_result)
      else (size, result_success)

  unfoldable pub check_file_exists_impl : FilePath → ℕ
  check_file_exists_impl none = result_null_path
  check_file_exists_impl (some path) =
      let (format_result, formatted_path) = format_path path in
      if not (format_result == result_success)
      then format_result
      else if system.get_file_attributes formatted_path == invalid_file_attributes
      then convert_win32_error_to_result system
      else result_success
