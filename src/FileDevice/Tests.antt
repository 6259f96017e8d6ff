-- ===== src/FileDevice/Tests.antt =====
-- Calls on a system with one file, of 5 bytes or of none.
use Prim.Native.Nat.{bit_and}
use dd_framework.Base.{
  ℕ, ◌+◌, ◌-◌, ◌≡◌, ◌≢◌, refl, true, false, List, [], ◌∷◌, some, ◌^◌, ◌↔◌, ◌⊎◌, arith,
}
use dd_framework.ResultCode.{result_success}
use dd_framework.FileDevice.{
  System, FileHandle, empty_handle, opened, open_mode_read, invalid_handle_value, open_file_impl,
}
use dd_framework.FileDevice.Calls.{open_file_impl_lem}
use dd_framework.FileDevice.Load.{FileLoadContext, load_file_impl, nothing_read}
use dd_framework.FileDevice.Empty.{load_file_impl_lem}
use dd_framework.FileDevice.Results.{result_invalid_file_buffer_size}

-- The file has the handle 7; nothing is found under another name.
abbrev one_file : ℕ → System
one_file size = record {
  create_file = λ path. 7;
  get_file_size_ex = λ handle. (2, size);
  close_handle = λ handle. true;
  set_file_pointer_ex = λ handle offset. 0;
  read_file = λ handle size. true;
  flush_file_buffers = λ handle. true;
  get_file_attributes = λ path. 2 ^ 32 - 1;
  last_error = 2;
}

abbrev same_path : List ℕ → ℕ × List ℕ
same_path path = (0, path)

abbrev name : List ℕ
name = 97 ∷ []

abbrev accepted : bit_and open_mode_read (2 ^ 31 + 2 ^ 30 + 1) ≢ 0
accepted = λ (e : 2147483648 ≡ 0). omega (arith, e)

open_file_impl_lem_example :
    ((open_file_impl (one_file 5) same_path (some empty_handle) (some name) open_mode_read).1
      ≡ result_success)
    ↔ (((one_file 5).create_file (some name) ≢ invalid_handle_value)
        ⊎ ((one_file 5).last_error ≡ 2))
open_file_impl_lem_example =
    open_file_impl_lem (one_file 5) same_path name empty_handle open_mode_read accepted refl

abbrev opened_file : ℕ → FileHandle
opened_file size = record { win32_handle = 7; file_offset = 0; file_size = size }

-- A buffer of no bytes, and parts of 16.
abbrev context : FileLoadContext
context = record {
  out_file = 4096;
  file_path = some name;
  file_size = 0;
  read_div = 16;
  is_heap_allocated = false;
}

abbrev Opens : ℕ → Type 0
Opens size =
    open_file_impl (one_file size) same_path (some empty_handle) (some name) open_mode_read
    ≡ (some (opened_file size), result_success)

Opens-five : Opens 5
unfolding open_file_impl opened
Opens-five = refl

load_file_impl_lem_example :
    load_file_impl (one_file 5) same_path (λ size. 0) 1 context
    ≡ nothing_read context result_invalid_file_buffer_size
load_file_impl_lem_example =
    (load_file_impl_lem (one_file 5) same_path (λ size. 0) 0 context).1 (λ e. omega (arith, e)) refl
      (λ (e : 16 ≡ 0). omega (arith, e)) (opened_file 5) Opens-five refl
