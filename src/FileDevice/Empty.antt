-- ===== src/FileDevice/Empty.antt =====
-- Which files `LoadFile` loads.
use Prim.Native.Nat.{bit_and}
use dd_framework.Base.{
  ℕ, zero, suc, ◌≡◌, ◌≢◌, true, false, List, [], ◌∷◌, Option, some, leb, ◌==◌, if◌then◌else◌,
  Bool-cases, inl, inr, arith, ==_ne, sub64, ok, bit_and-le, ◌⊎◌,
}
use dd_framework.Alignment.{align_down, complement64}
use dd_framework.ResultCode.{result_success}
use dd_framework.FileDevice.Results.{result_invalid_file_buffer_size}
use dd_framework.FileDevice.{
  is_open, System, FileHandle, empty_handle, open_mode_read, open_file_impl, close_file_impl,
  get_file_size_impl,
}
use dd_framework.FileDevice.Load.{
  FileLoadContext, read_loop, take_buffer, load_opened, load_file_impl, nothing_read,
}

align_down-zero : (align : ℕ) → align_down 0 align ≡ 0
unfolding align_down
align_down-zero align = omega (arith, bit_and-le 0 (complement64 (sub64 align 1)))

module _ (system : System) (format_path : List ℕ → ℕ × List ℕ) (allocate : ℕ → ℕ) where
  sizes-open :
      (handle : FileHandle)
      → is_open handle ≡ true
      → get_file_size_impl system format_path (some handle)
        ≡ (some handle.file_size, result_success)
  unfolding get_file_size_impl
  sizes-open handle valid = rw valid

  load_opened-sized :
      (rounds : ℕ) (c : FileLoadContext) (handle : Option FileHandle) (size : ℕ)
      → (c.out_file == 0) ≡ false
      → c.file_size ≡ 0
      → get_file_size_impl system format_path handle ≡ (some size, result_success)
      → load_opened system format_path allocate (suc rounds) c handle ≡ (
          if size == 0
          then ok (record {
            context = c;
            reads = (0, 0) ∷ [];
            result = (close_file_impl system format_path handle).1;
          })
          else nothing_read c result_invalid_file_buffer_size)
  unfolding load_opened take_buffer read_loop
  load_opened-sized rounds c handle zero buffer no_size sizes =
      simp (sizes, buffer, no_size, align_down-zero)
  load_opened-sized rounds c handle (suc n) buffer no_size sizes =
      let too_large : leb (suc n) 0 ≡ false = ground arith in
      let not_zero : suc n == 0 ≡ false = ground arith in
      simp (sizes, buffer, no_size, too_large, not_zero)

  -- `LoadFile` refuses every context without a buffer or with a buffer of a size that is not 0; with
  -- a buffer of size 0, a file that opens, and a part size that is accepted, it loads the file only
  -- if it is empty, by one read of no bytes, and else refuses it for its size. One round of the loop
  -- is enough.
  pub load_file_impl_lem :
      (rounds : ℕ) (c : FileLoadContext)
      → (((c.out_file ≡ 0) ⊎ (c.file_size ≢ 0))
          → load_file_impl system format_path allocate rounds c
            ≡ nothing_read c result_invalid_file_buffer_size)
        × (c.out_file ≢ 0
            → c.file_size ≡ 0
            → bit_and c.read_div 0x1f ≢ 0
            → (handle : FileHandle)
            → open_file_impl system format_path (some empty_handle) c.file_path open_mode_read
              ≡ (some handle, result_success)
            → is_open handle ≡ true
            → load_file_impl system format_path allocate (suc rounds) c ≡ (
                if handle.file_size == 0
                then ok (record {
                  context = c;
                  reads = (0, 0) ∷ [];
                  result = (close_file_impl system format_path (some handle)).1;
                })
                else nothing_read c result_invalid_file_buffer_size))
  unfolding load_file_impl
  load_file_impl_lem rounds c = (
    (λ refused. elim refused [
      | inl no_buffer ↦ rw no_buffer
      | inr sized ↦
          let e : c.file_size == 0 ≡ false = ==_ne _ _ sized in
          elim (Bool-cases (c.out_file == 0)) [ inl z ↦ rw z | inr nz ↦ rw (nz, e) ]
    ]),
    λ buffer no_size part handle opens valid.
        let e : c.out_file == 0 ≡ false = ==_ne _ _ buffer in
        let p : bit_and c.read_div 0x1f == 0 ≡ false = ==_ne _ _ part in
        let z : c.file_size == 0 ≡ true = ground arith in
        let sizes : get_file_size_impl system format_path (some handle)
            ≡ (some handle.file_size, result_success) =
          sizes-open handle valid in
        rw (e, p, opens, z)
          (load_opened-sized rounds c (some handle) handle.file_size e no_size sizes),
  )
