-- ===== src/Hash.antt =====
-- server.c: `hash_function`.
pub mod Horner
use search_engine.Common.{ℕ, ◌+◌, ◌-◌, ◌*◌, ◌%◌, ◌^◌, List, [], ◌∷◌, ltb, ◌==◌, if◌then◌else◌}

abbrev pub hash_multiplier : ℕ
hash_multiplier = 65599

-- `(unsigned int)c` of a `char`, which is signed.
abbrev pub extend : ℕ → ℕ
extend c = if ltb c 128 then c else 2 ^ 32 - (256 - c)

-- The loop, from the value that `uiHash` has.
unfoldable pub hash_loop : ℕ → List ℕ → ℕ
hash_loop hash [] = hash
hash_loop hash (c ∷ key) =
    if c == 0 then hash else hash_loop ((hash * hash_multiplier + extend c) % 2 ^ 32) key

unfoldable pub hash_function : List ℕ → ℕ
unfolding hash_loop
hash_function key = hash_loop 0 key
