-- ===== src/PathUtil/Tests.antt =====
-- The functions of util_pathutil.hpp on the path `a/b`, with room for nothing but its end behind it.
use dd_framework.Base.{ℕ, ◌+◌, ◌-◌, ◌≡◌, refl, some, ok, ltb, ◌==◌, if◌then◌else◌, arith, update}
use dd_framework.PathUtil.{
  FixedString, Source, find_last, find_drive_delimiter, find_directory_delimiter, copy_out,
  get_directory, get_file_name_from_path, get_directory_without_drive,
}
use dd_framework.PathUtil.Split.{IsLastDelimiter, Holds, get_directory-get_file_name}

abbrev a_slash_b : ℕ → ℕ
a_slash_b i = if i == 1 then 47 else if i == 0 then 97 else if i == 2 then 98 else 0

abbrev path : Source
path = record { chars = a_slash_b; extent = 4; path_len = 3 }

abbrev blank : FixedString
blank = record { string_array = λ i. 0; length = 0 }

found_at_1 : find_directory_delimiter a_slash_b 3 ≡ 1
unfolding find_directory_delimiter find_last
found_at_1 = refl

get_directory-get_file_name_example :
    (d : ℕ) × IsLastDelimiter a_slash_b 3 d
    × (directory : FixedString) × (file_name : FixedString) × (get_directory
          (some blank)
          (some path)
        ≡ ok (some directory))
    × (get_file_name_from_path (some blank) (some path) ≡ ok (some file_name))
    × Holds directory path 0 d
    × Holds file_name path d (3 - d)
    × (directory.length + file_name.length ≡ 3)
get_directory-get_file_name_example =
    get_directory-get_file_name blank path (omega arith) (omega arith) (omega arith)

-- What comes out of `GetDirectoryWithoutDrive` for it.
abbrev nothing : FixedString
nothing = record {
  string_array = update (λ i. if ltb i 0 then a_slash_b (0 + i) else 0) 255 0;
  length = 0;
}

no_directory : get_directory_without_drive (some blank) (some path) ≡ ok (some nothing)
unfolding get_directory_without_drive find_drive_delimiter find_directory_delimiter find_last
    copy_out
no_directory = refl
