-- ===== src/FileDevice/Calls.antt =====
-- The results of the calls. In module 6 the results for a file that is not found, for a null buffer
-- and for a size that cannot be read have the code of success.
use Prim.Native.Nat.{bit_and}
use dd_framework.Base.{
  ℕ, ◌≡◌, ◌≢◌, refl, true, false, List, some, ◌==◌, if◌then◌else◌, Bool-cases, inl, inr, arith,
  ==→eq, ==_ne, ◌↔◌, ◌⊎◌,
}
use dd_framework.ResultCode.{result_success}
use dd_framework.FileDevice.{
  System, FileHandle, convert_win32_error_to_result, opened, open_file_impl, check_file_exists_impl,
  read_file_impl, invalid_file_attributes, invalid_handle_value, is_open,
  open_mode_read_write_append,
}

-- The error 2 is the only one that is converted to success.
pub convert-success :
    (system : System)
    → (convert_win32_error_to_result system ≡ result_success) ↔ (system.last_error ≡ 2)
unfolding convert_win32_error_to_result
convert-success system = ((λ e. ground arith), λ e. rw e)

module _ (system : System) (format_path : List ℕ → ℕ × List ℕ) (path : List ℕ) where
  -- For a path that the device formats: `CheckFileExists` of a file that the system does not find,
  -- with the error 2, returns success, as it does for a file that exists; with any other error it
  -- fails.
  check_file_exists_impl_lem :
      (format_path path).0 ≡ result_success
      → (check_file_exists_impl system format_path (some path) ≡ result_success) ↔ (
          (system.get_file_attributes (format_path path).1 ≢ invalid_file_attributes)
          ⊎ (system.last_error ≡ 2))
  unfolding check_file_exists_impl
  check_file_exists_impl_lem formatted =
      elim (Bool-cases
        (system.get_file_attributes (format_path path).1 == invalid_file_attributes)) [
          | inl missing ↦
              rw (formatted, missing)
                (
                  (λ e. inr ((convert-success system).0 e)),
                  λ e. elim e [
                    | inl there ↦ absurd (there (==→eq _ _ missing))
                    | inr not_found ↦ (convert-success system).1 not_found
                  ],
                )
          | inr there ↦
              rw (formatted, there) ((λ e. inl (λ q. absurd (ground (arith, q)))), λ e. refl)
        ]

  -- With accepted arguments, `OpenFile` returns success exactly where the system opens the file or
  -- does not find it, with the error 2; whether the size can be read makes no difference.
  pub open_file_impl_lem :
      (out : FileHandle) (open_mode : ℕ)
      → bit_and open_mode open_mode_read_write_append ≢ 0
      → (format_path path).0 ≡ result_success
      → ((open_file_impl system format_path (some out) (some path) open_mode).1 ≡ result_success)
        ↔ ((system.create_file (some path) ≢ invalid_handle_value) ⊎ (system.last_error ≡ 2))
  unfolding open_file_impl opened
  open_file_impl_lem out open_mode accepted formatted =
      let allowed : bit_and open_mode open_mode_read_write_append == 0 ≡ false =
        ==_ne _ _ accepted in
      let win32_handle = system.create_file (some path) in
      elim (Bool-cases (win32_handle == invalid_handle_value)) [
        | inl invalid ↦
            rw (allowed, formatted, invalid)
              (
                (λ e. inr ((convert-success system).0 e)),
                λ e. elim e [
                  | inl valid ↦ absurd (valid (==→eq _ _ invalid))
                  | inr not_found ↦ (convert-success system).1 not_found
                ],
              )
        | inr valid ↦
            rw (allowed, formatted, valid)
              (
                (λ e. inl (λ q. absurd (ground (arith, q)))),
                λ e. elim (Bool-cases ((system.get_file_size_ex win32_handle).0 == 1)) [
                  | inl sized ↦ rw sized
                  | inr unsized ↦ rw unsized
                ],
              )
      ]

  -- `ReadFile` on an open handle fails, without a read, with the last error where the system sets
  -- the position, and reads only where it does not.
  read_file_impl_lem :
      (handle : FileHandle) (size : ℕ)
      → is_open handle ≡ true
      → (system.set_file_pointer_ex handle.win32_handle handle.file_offset ≢ 0
          → read_file_impl system format_path (some handle) size
            ≡ convert_win32_error_to_result system)
        × (system.set_file_pointer_ex handle.win32_handle handle.file_offset ≡ 0
            → read_file_impl system format_path (some handle) size ≡ (
                if system.read_file handle.win32_handle size
                then result_success
                else convert_win32_error_to_result system))
  unfolding read_file_impl
  read_file_impl_lem handle size h = (
    (λ ne.
        let e : system.set_file_pointer_ex handle.win32_handle handle.file_offset == 0 ≡ false =
          ==_ne _ _ ne in
        rw (h, e)),
    λ e. rw (h, e),
  )
