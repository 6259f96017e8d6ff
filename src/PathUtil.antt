-- ===== src/PathUtil.antt =====
-- libraries/lib_dd/include/dd/util/util_pathutil.hpp: taking paths apart. A character is its code. The
-- two overloads of each function differ in where the path and its length come from, so they are one
-- definition over a `Source`.
pub mod Delimiters
pub mod Split
pub mod Change
mod Tests
use dd_framework.Base.{
  ℕ, zero, suc, ◌+◌, ◌-◌, ◌%◌, ◌^◌, Bool, true, false, ◌||◌, Option, none, some, ltb, leb, ◌==◌,
  if◌then◌else◌, update, Run, ok, ◌>>=◌, ◌>>◌, require,
}

-- `FixedString<Size>`; its size is an argument of the functions.
pub record FixedString : Type 0 where
  pub string_array : ℕ → ℕ
  pub length : ℕ

-- A path to read: its characters, how many of them may be read, and `path_len`.
pub record Source : Type 0 where
  pub chars : ℕ → ℕ
  pub extent : ℕ
  pub path_len : ℕ

abbrev pub max_path : ℕ
max_path = 256

abbrev pub max_drive : ℕ
max_drive = 32

abbrev pub colon : ℕ
colon = 58

abbrev pub slash : ℕ
slash = 47

abbrev pub back_slash : ℕ
back_slash = 92

-- The `do` loops, from offset `i` on: the loop ends before it reads the character at 0.
unfoldable pub find_last : (ℕ → ℕ) → ℕ → ℕ → ℕ
find_last path c zero = zero
find_last path c (suc i) =
    let rest = find_last path c i in if path (suc i) == c then suc i else rest

unfoldable pub find_drive_delimiter : (ℕ → ℕ) → ℕ → ℕ
unfolding find_last
find_drive_delimiter path path_len = find_last path colon path_len

unfoldable pub find_directory_delimiter : (ℕ → ℕ) → ℕ → ℕ
unfolding find_last
find_directory_delimiter path path_len =
    let back_slash_offset = find_last path back_slash path_len in
    let forward_slash_offset = find_last path slash path_len in
    if ltb forward_slash_offset back_slash_offset then back_slash_offset else forward_slash_offset

unfoldable pub find_extension_delimiter : (ℕ → ℕ) → ℕ → ℕ
unfolding find_last
find_extension_delimiter path path_len = find_last path slash path_len

-- `a - b` in 32 bits.
abbrev pub sub32 : ℕ → ℕ → ℕ
sub32 a b = (a + (2 ^ 32 - b)) % 2 ^ 32

abbrev pub memcpy : (ℕ → ℕ) → (ℕ → ℕ) → ℕ → ℕ → ℕ → ℕ
memcpy dst src offset n i = if ltb i n then src (offset + i) else dst i

-- The end of every function: the copy into the `size` characters of `out`, the length, and
-- `AssureTermination`.
unfoldable pub copy_out : ℕ → FixedString → Source → ℕ → ℕ → Run FixedString
copy_out size out src offset name_size = do
  let n = if ltb name_size size then name_size else size - 1
  require (leb (offset + n) src.extent)
  ok (record {
    string_array = update (memcpy out.string_array src.chars offset n) (size - 1) 0;
    length = name_size;
  })

-- The null checks and the length check.
abbrev pub guarded :
    Option FixedString
    → Option Source
    → (FixedString → Source → Run FixedString)
    → Run (Option FixedString)
guarded none src f = ok none
guarded (some out) none f = ok (some out)
guarded (some out) (some src) f =
    if src.path_len == 0 then ok (some out) else (f out src >>= λ r. ok (some r))

unfoldable pub get_drive_from_path : Option FixedString → Option Source → Run (Option FixedString)
unfolding find_drive_delimiter copy_out
get_drive_from_path out path =
    guarded out path λ o p. copy_out max_drive o p 0 (find_drive_delimiter p.chars p.path_len)

unfoldable pub get_path_without_drive :
    Option FixedString → Option Source → Run (Option FixedString)
unfolding find_drive_delimiter copy_out
get_path_without_drive out path = guarded out path λ o p.
    let drive_start_offset = find_drive_delimiter p.chars p.path_len in
    copy_out max_path o p drive_start_offset (sub32 p.path_len drive_start_offset)

unfoldable pub get_directory : Option FixedString → Option Source → Run (Option FixedString)
unfolding find_directory_delimiter copy_out
get_directory out path =
    guarded out path λ o p. copy_out max_path o p 0 (find_directory_delimiter p.chars p.path_len)

unfoldable pub get_directory_without_drive :
    Option FixedString → Option Source → Run (Option FixedString)
unfolding find_drive_delimiter find_directory_delimiter copy_out
get_directory_without_drive out path = guarded out path λ o p.
    let dir_start_offset = find_drive_delimiter p.chars p.path_len in
    let name_start_offset = find_directory_delimiter p.chars p.path_len in
    copy_out max_path o p dir_start_offset
      (sub32 (sub32 name_start_offset dir_start_offset) name_start_offset)

unfoldable pub get_file_name_from_path :
    Option FixedString → Option Source → Run (Option FixedString)
unfolding find_directory_delimiter copy_out
get_file_name_from_path out path = guarded out path λ o p.
    let name_start_offset = find_directory_delimiter p.chars p.path_len in
    copy_out max_path o p name_start_offset (sub32 p.path_len name_start_offset)

unfoldable pub get_file_name_from_path_no_extension :
    Option FixedString → Option Source → Run (Option FixedString)
unfolding find_extension_delimiter find_directory_delimiter copy_out
get_file_name_from_path_no_extension out path = guarded out path λ o p.
    let ext_start_offset = find_extension_delimiter p.chars p.path_len in
    let name_start_offset = find_directory_delimiter p.chars p.path_len in
    copy_out max_path o p name_start_offset
      (sub32 (sub32 p.path_len name_start_offset) ext_start_offset)

unfoldable pub get_extension_from_path :
    Option FixedString → Option Source → Run (Option FixedString)
unfolding find_directory_delimiter copy_out
get_extension_from_path out path =
    guarded out path λ o p. copy_out max_path o p 0 (find_directory_delimiter p.chars p.path_len)

abbrev pub is_delimiter : ℕ → Bool
is_delimiter c = (c == slash) || (c == back_slash)

-- The loop from `start_offset` down to 1.
unfoldable pub change_loop : ℕ → ℕ → (ℕ → ℕ) → ℕ → ℕ
change_loop new_delimiter zero chars = chars
change_loop new_delimiter (suc i) chars =
    change_loop new_delimiter i
      (if is_delimiter (chars (suc i)) then update chars (suc i) new_delimiter else chars)

-- A length of 0 and a null pointer leave the string as it is; the string's array has its length.
unfoldable pub change_directory_delimiter : FixedString → ℕ → FixedString
unfolding find_directory_delimiter change_loop
change_directory_delimiter path new_delimiter = if path.length == 0 then path else record path {
  string_array =
      change_loop new_delimiter (find_directory_delimiter path.string_array path.length)
        path.string_array;
}
