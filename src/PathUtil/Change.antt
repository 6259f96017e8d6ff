-- ===== src/PathUtil/Change.antt =====
-- `ChangeDirectoryDelimiter` of util_pathutil.hpp.
use dd_framework.Base.{ℕ, zero, suc, ◌≤◌, ◌≡◌, ◌&&◌, ltb, leb, if◌then◌else◌, arith, update, ◌∙◌}
use dd_framework.PathUtil.{
  FixedString, find_directory_delimiter, is_delimiter, change_loop, change_directory_delimiter,
}
use dd_framework.PathUtil.Delimiters.{find_directory_delimiter_lem}

change_loop_lem :
    (c i n : ℕ) (chars : ℕ → ℕ)
    → change_loop c n chars i
      ≡ (if (ltb 0 i && leb i n) && is_delimiter (chars i) then c else chars i)
unfolding change_loop
change_loop_lem c i zero chars = ground arith
change_loop_lem c i (suc n) chars =
    change_loop_lem c i n (if is_delimiter (chars (suc n)) then update chars (suc n) c else chars)
    ∙ ground arith

-- Up to the string's length, every delimiter but one at the first character becomes the new one,
-- and all other characters are as they were.
pub change_directory_delimiter_lem :
    (path : FixedString) (new_delimiter i : ℕ)
    → i ≤ path.length
    → (change_directory_delimiter path new_delimiter).string_array i ≡ (
        if ltb 0 i && is_delimiter (path.string_array i)
        then new_delimiter
        else path.string_array i)
unfolding change_directory_delimiter
change_directory_delimiter_lem path c i h =
    let (below, hit, miss) = find_directory_delimiter_lem path.string_array path.length in
    ground (
      arith,
      miss i,
      change_loop_lem c i (find_directory_delimiter path.string_array path.length)
          path.string_array,
    )
