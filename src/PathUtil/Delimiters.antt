-- ===== src/PathUtil/Delimiters.antt =====
-- Where the searches of util_pathutil.hpp end.
use dd_framework.Base.{
  ℕ, zero, suc, ◌≤◌, ◌<◌, ◌≡◌, ◌≢◌, ◌⊎◌, inl, refl, true, false, arith, ℕ_discrete,
}
use dd_framework.PathUtil.{find_last, find_directory_delimiter, is_delimiter, slash, back_slash}

-- The last place of `c` from 1 to `n`, or 0.
pub find_last_bound : (path : ℕ → ℕ) (c n : ℕ) → find_last path c n ≤ n
unfolding find_last
find_last_bound path c zero = omega arith
find_last_bound path c (suc n) = ground (arith, find_last_bound path c n)

find_last_hit :
    (path : ℕ → ℕ) (c n : ℕ) → (find_last path c n ≡ 0) ⊎ (path (find_last path c n) ≡ c)
unfolding find_last
find_last_hit path c zero = inl refl
find_last_hit path c (suc n) = ground (arith, find_last_hit path c n)

find_last_miss : (path : ℕ → ℕ) (c i n : ℕ) → find_last path c n < i → i ≤ n → path i ≢ c
unfolding find_last
find_last_miss path c i zero l h e = ground arith
find_last_miss path c i (suc n) l h e = elim (ℕ_discrete i (suc n)) [
  | yes m ↦ ground arith
  | no m ↦ find_last_miss path c i n (ground arith) (omega (arith, m)) e
]

-- The search for a directory's end finds the last delimiter of the path behind its first character, or 0
-- where there is none.
pub find_directory_delimiter_lem :
    (path : ℕ → ℕ) (path_len : ℕ)
    → let d = find_directory_delimiter path path_len in
      (d ≤ path_len)
      × ((d ≡ 0) ⊎ (is_delimiter (path d) ≡ true))
      × ((i : ℕ) → d < i → i ≤ path_len → is_delimiter (path i) ≡ false)
unfolding find_directory_delimiter
find_directory_delimiter_lem path path_len = (
  ground (arith, find_last_bound path slash path_len, find_last_bound path back_slash path_len),
  ground (arith, find_last_hit path slash path_len, find_last_hit path back_slash path_len),
  λ i l h.
      ground
        (arith, find_last_miss path slash i path_len, find_last_miss path back_slash i path_len),
)
