-- ===== src/PathUtil/Split.antt =====
-- What the functions of util_pathutil.hpp copy out of a path.
use dd_framework.Base.{
  ℕ, ◌+◌, ◌-◌, ◌≤◌, ◌<◌, ◌≡◌, ◌⊎◌, inl, inr, refl, some, arith, update, ok, ==_ne,
}
use dd_framework.PathUtil.{
  FixedString, Source, max_path, colon, find_drive_delimiter, find_directory_delimiter, copy_out,
  get_directory, get_file_name_from_path, get_directory_without_drive, sub32, memcpy,
}
use dd_framework.PathUtil.Delimiters.{find_last_bound, find_directory_delimiter_lem}

-- `r` has the `n` characters of the path from `offset` on.
abbrev pub Holds : FixedString → Source → ℕ → ℕ → Type 0
Holds r p offset n = (r.length ≡ n) × ((i : ℕ) → i < n → r.string_array i ≡ p.chars (offset + i))

copy_out-Holds :
    (size : ℕ) (o : FixedString) (p : Source) (offset n : ℕ)
    → n < size
    → offset + n ≤ p.extent
    → (r : FixedString) × (copy_out size o p offset n ≡ ok r) × Holds r p offset n
unfolding copy_out
copy_out-Holds size o p offset n h e = (
  record {
    string_array = update (memcpy o.string_array p.chars offset n) (size - 1) 0;
    length = n;
  },
  ground arith,
  (refl, λ i l. ground arith),
)

-- A slash or a backslash.
abbrev pub Delimits : ℕ → Type 0
Delimits c = (c ≡ 47) ⊎ (c ≡ 92)

-- `d` is the last place of a delimiter from 1 to `n`, or 0 where there is none.
pub record IsLastDelimiter (chars : ℕ → ℕ) (n d : ℕ) : Type 0 where
  pub low : d ≤ n
  pub at : (d ≡ 0) ⊎ Delimits (chars d)
  pub last : (i : ℕ) → d < i → i ≤ n → ¬ (Delimits (chars i))

find_directory_delimiter-IsLastDelimiter :
    (chars : ℕ → ℕ) (n : ℕ) → IsLastDelimiter chars n (find_directory_delimiter chars n)
find_directory_delimiter-IsLastDelimiter chars n =
    let found = find_directory_delimiter_lem chars n in
    record {
      low = found.0;
      at = elim found.1 [ inl e ↦ inl e | inr e ↦ inr (ground arith) ];
      last = λ i l h e. absurd (ground (arith, found.2 i l h));
    }

-- For a path that is not empty, shorter than the array, and with a character in memory behind it,
-- `GetDirectory` and `GetFileNameFromPath` return its two parts: the file name begins with the last
-- slash or backslash behind the first character, up to the one behind the path, or it is the whole
-- path where there is none.
pub get_directory-get_file_name :
    (o : FixedString) (p : Source)
    → 0 < p.path_len
    → p.path_len < max_path
    → p.path_len < p.extent
    → (d : ℕ) × IsLastDelimiter p.chars p.path_len d
      × (directory : FixedString) × (file_name : FixedString) × (get_directory (some o) (some p)
          ≡ ok (some directory))
      × (get_file_name_from_path (some o) (some p) ≡ ok (some file_name))
      × Holds directory p 0 d
      × Holds file_name p d (p.path_len - d)
      × (directory.length + file_name.length ≡ p.path_len)
unfolding get_directory get_file_name_from_path
get_directory-get_file_name o p nz fits room =
    let d = find_directory_delimiter p.chars p.path_len in
    let below = (find_directory_delimiter_lem p.chars p.path_len).0 in
    let (dir, dir_ok, dir_holds) = copy_out-Holds max_path o p 0 d (omega arith) (omega arith) in
    let (file, file_ok, file_holds) =
      copy_out-Holds max_path o p d (p.path_len - d) (omega arith) (omega arith) in
    let size : sub32 p.path_len d ≡ p.path_len - d = omega arith in
    (
      d,
      find_directory_delimiter-IsLastDelimiter p.chars p.path_len,
      dir,
      file,
      rw (==_ne p.path_len 0 (omega arith), dir_ok) refl,
      rw (==_ne p.path_len 0 (omega arith), size, file_ok) refl,
      dir_holds,
      file_holds,
      omega (arith, dir_holds.0, file_holds.0),
    )

-- Where `GetDirectoryWithoutDrive` returns, for a path that is not empty and shorter than the
-- array, the length that it stores is 0 or more than the path's.
get_directory_without_drive-length :
    (o r : FixedString) (p : Source)
    → 0 < p.path_len
    → p.path_len < max_path
    → get_directory_without_drive (some o) (some p) ≡ ok (some r)
    → (r.length ≡ 0) ⊎ (p.path_len < r.length)
unfolding get_directory_without_drive copy_out find_drive_delimiter
get_directory_without_drive-length o r p nz fits e =
    let drive = find_last_bound p.chars colon p.path_len in
    let below = (find_directory_delimiter_lem p.chars p.path_len).0 in ground arith
