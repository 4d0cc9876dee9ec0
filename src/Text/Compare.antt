-- ===== src/Text/Compare.antt =====
-- helper.c: when `StrCompare` takes two strings for equal.
use search_engine.Common.{ℕ, zero, suc, ◌<◌, ◌≡◌, ◌↔◌, refl, sym, ◌∙◌, List, [], ◌∷◌, arith, take}
use search_engine.Common.Int.{pos, ◌-ℤ◌}
use search_engine.Text.{str_compare, char, next}
use search_engine.Text.Scan.{until_nul}

abbrev pub IsBytes : List ℕ → Type 0
IsBytes [] = Unit
IsBytes (c ∷ s) = (c < 256) × IsBytes s

pub char-injective : (a b : ℕ) → a < 256 → b < 256 → char a -ℤ char b ≡ pos 0 → a ≡ b
char-injective a b h k e = ground arith

char_self : (a : ℕ) → char a -ℤ char a ≡ pos 0
char_self a = ground arith

-- For strings of bytes, `StrCompare` gives 0 exactly if the two agree up to `max_len` bytes: for
-- two strings that are shorter than `max_len`, exactly if they are the same; for two longer ones
-- also if they differ later.
pub str_compare-zero_iff :
    (max_len : ℕ) (s t : List ℕ)
    → IsBytes s
    → IsBytes t
    → (str_compare s t max_len ≡ pos 0) ↔ (take max_len (until_nul s) ≡ take max_len (until_nul t))
unfolding str_compare until_nul
str_compare-zero_iff zero s t hs ht = (λ _. refl, λ _. refl)
str_compare-zero_iff (suc n) [] [] hs ht = (λ _. refl, λ _. refl)
str_compare-zero_iff (suc n) [] (d ∷ t) hs ht =
    (λ e. ground (arith, char-injective 0 d), λ e. ground (arith))
str_compare-zero_iff (suc n) (c ∷ s) [] hs ht =
    (λ e. ground (arith, char-injective c 0), λ e. ground (arith))
str_compare-zero_iff (suc n) (c ∷ s) (d ∷ t) hs ht =
    let (to, from) = str_compare-zero_iff n s t hs.1 ht.1 in
    (λ e. ground (arith, char-injective c d, to), λ e. ground (arith, char_self c, from))

-- `StrCompare` reads its strings up to their terminators only.
pub str_compare-until_nul :
    (max_len : ℕ) (s t : List ℕ) → str_compare s t max_len ≡ str_compare s (until_nul t) max_len
unfolding str_compare until_nul
str_compare-until_nul zero s t = refl
str_compare-until_nul (suc n) s [] = refl
str_compare-until_nul (suc n) s (d ∷ t) = ground (arith, str_compare-until_nul n (next s) t)

-- A string that reads the same compares as equal.
pub str_compare-same :
    (max_len : ℕ) (s t : List ℕ) → until_nul s ≡ t → str_compare s t max_len ≡ pos 0
unfolding str_compare until_nul
str_compare-same zero s t e = refl
str_compare-same (suc n) [] [] e = refl
str_compare-same (suc n) [] (d ∷ t) e = cc
str_compare-same (suc n) (c ∷ s) [] e = ground (arith)
str_compare-same (suc n) (c ∷ s) (d ∷ t) e = ground (arith, char_self c, str_compare-same n s t)

str_compare-until_nul_left :
    (max_len : ℕ) (s t : List ℕ) → str_compare s t max_len ≡ str_compare (until_nul s) t max_len
unfolding str_compare until_nul
str_compare-until_nul_left zero s t = refl
str_compare-until_nul_left (suc n) [] t = refl
str_compare-until_nul_left (suc n) (c ∷ s) t =
    ground (arith, str_compare-until_nul_left n s (next t))

-- Two strings that compare as equal with the same one agree up to `max_len` bytes.
pub str_compare-both :
    (max_len : ℕ) (w s t : List ℕ)
    → IsBytes (until_nul w)
    → IsBytes s
    → IsBytes t
    → str_compare w s max_len ≡ pos 0
    → str_compare w t max_len ≡ pos 0
    → take max_len (until_nul s) ≡ take max_len (until_nul t)
str_compare-both n w s t hw hs ht e e' =
    sym (
      (str_compare-zero_iff n (until_nul w) s hw hs).0 (sym (str_compare-until_nul_left n w s) ∙ e))
    ∙ (str_compare-zero_iff n (until_nul w) t hw ht).0 (sym (str_compare-until_nul_left n w t) ∙ e')
