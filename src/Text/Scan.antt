-- ===== src/Text/Scan.antt =====
-- helper.c: what `StrGetLength` counts.
use search_engine.Common.{
  ℕ, zero, suc, ◌≡◌, refl, List, [], ◌∷◌, ◌++◌, arith, ltb, ◌==◌, min, if◌then◌else◌, length,
}
use search_engine.Text.{length_loop, str_get_length}

-- The bytes of a string, without its terminator.
unfoldable pub until_nul : List ℕ → List ℕ
until_nul [] = []
until_nul (c ∷ s) = if c == 0 then [] else c ∷ until_nul s

length_loop-until_nul :
    (rounds : ℕ) (s : List ℕ) → length_loop rounds s ≡ min rounds (length (until_nul s))
unfolding length_loop until_nul
length_loop-until_nul zero s = omega arith
length_loop-until_nul (suc rounds) [] = omega arith
length_loop-until_nul (suc rounds) (c ∷ s) = ground (arith, length_loop-until_nul rounds s)

-- `StrGetLength` gives the length of a string that is shorter than `max_len`, and 0 for any other.
pub str_get_length_lem :
    (s : List ℕ) (max_len : ℕ)
    → str_get_length s max_len
      ≡ (if ltb (length (until_nul s)) max_len then length (until_nul s) else 0)
unfolding str_get_length
str_get_length_lem s max_len = ground (arith, length_loop-until_nul max_len s)

pub until_nul-until_nul : (s : List ℕ) → until_nul (until_nul s) ≡ until_nul s
unfolding until_nul
until_nul-until_nul [] = refl
until_nul-until_nul (c ∷ s) = ground (arith, until_nul-until_nul s)

-- `StrGetLength` reads its string up to the terminator only.
pub str_get_length-until_nul :
    (s : List ℕ) (max_len : ℕ) → str_get_length s max_len ≡ str_get_length (until_nul s) max_len
str_get_length-until_nul s max_len =
    rw (str_get_length_lem s max_len, str_get_length_lem (until_nul s) max_len, until_nul-until_nul)

-- A string behind which a terminator stands is read up to there.
pub until_nul-append : (s r : List ℕ) → until_nul (until_nul s ++ 0 ∷ r) ≡ until_nul s
unfolding until_nul
until_nul-append [] r = refl
until_nul-append (c ∷ s) r = ground (arith, until_nul-append s r)
