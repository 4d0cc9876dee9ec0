-- ===== src/Hash/Horner.antt =====
-- server.c: the value that `hash_function` computes.
use search_engine.Common.{
  ℕ, ◌+◌, ◌*◌, ◌-◌, ◌%◌, ◌^◌, ◌<◌, ◌≡◌, inl, inr, refl, ◌∙◌, List, [], ◌∷◌, arith, leb, ◌==◌,
  if◌then◌else◌, Bool-cases,
}
use search_engine.Hash.{hash_multiplier, extend, hash_loop, hash_function}
use search_engine.Text.Compare.{IsBytes}
use search_engine.Text.Scan.{until_nul}

-- A byte as a signed number modulo 2 ^ 32: a byte from 128 on stands for 256 less.
abbrev pub digit : ℕ → ℕ
digit c = if leb 128 c then c + (2 ^ 32 - 256) else c

-- The key as the digits of a number with the base 65599, the first byte the highest.
abbrev pub digits_value : ℕ → List ℕ → ℕ
digits_value acc [] = acc
digits_value acc (c ∷ key) = digits_value (acc * 65599 + digit c) key

extend_lem : (c : ℕ) → c < 256 → extend c ≡ digit c
extend_lem c h = ground arith

hash_loop-until_nul :
    (hash : ℕ) (key : List ℕ) → hash_loop hash key ≡ hash_loop hash (until_nul key)
unfolding hash_loop until_nul
hash_loop-until_nul hash [] = refl
hash_loop-until_nul hash (c ∷ key) =
    ground (arith, hash_loop-until_nul ((hash * hash_multiplier + extend c) % 2 ^ 32) key)

-- The hash of a key depends on its bytes up to the terminator only.
pub hash_function-until_nul : (key : List ℕ) → hash_function key ≡ hash_function (until_nul key)
unfolding hash_function
hash_function-until_nul key = hash_loop-until_nul 0 key

hash_loop-digits :
    (acc : ℕ) (key : List ℕ)
    → IsBytes key
    → hash_loop (acc % 2 ^ 32) (until_nul key) ≡ digits_value acc (until_nul key) % 2 ^ 32
unfolding hash_loop until_nul
hash_loop-digits acc [] h = refl
hash_loop-digits acc (c ∷ key) (b, h) = elim (Bool-cases (c == 0)) [
  | inl e ↦ rw e
  | inr e ↦
      let step : (acc % 2 ^ 32 * hash_multiplier + extend c) % 2 ^ 32
          ≡ (acc * 65599 + digit c) % 2 ^ 32 =
        omega (arith, extend_lem c b) in
      rw (e, e, step) (hash_loop-digits (acc * 65599 + digit c) key h)
]

-- For a key of bytes, `hash_function` is the value of a number with the base 65599, whose digits are
-- the bytes up to the terminator, the first one the highest, each as a signed number (from 128 on 256
-- less), modulo 2 ^ 32.
pub hash_function-digits :
    (key : List ℕ) → IsBytes key → hash_function key ≡ digits_value 0 (until_nul key) % 2 ^ 32
unfolding hash_function
hash_function-digits key h = hash_loop-until_nul 0 key ∙ hash_loop-digits 0 key h
