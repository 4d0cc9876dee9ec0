-- ===== src/Text.antt =====
-- helper.c: the string methods. A `const char *` is the list of the bytes from it on, in which a
-- string ends at its first 0; behind the list reads give 0 (the terminator). A count that runs up to
-- `max_len` is the number of rounds that are left, so that the loop ends where the count is reached.
pub mod Scan
pub mod Compare
pub mod Copy
pub mod Words
pub mod Pieces
use search_engine.Common.{
  ℕ, zero, suc, ◌+◌, ◌-◌, ◌%◌, ◌^◌, Option, none, some, List, [], ◌∷◌, ◌++◌, Bool, true, false,
  ◌&&◌, not, ltb, leb, ◌==◌, if◌then◌else◌, take, drop, set,
}
use search_engine.Common.Int.{ℤ, pos, negsuc, ◌-ℤ◌}

-- `*p`.
abbrev pub char_at : List ℕ → ℕ
char_at [] = 0
char_at (c ∷ s) = c

-- `p + 1`.
abbrev pub next : List ℕ → List ℕ
next [] = []
next (c ∷ s) = s

-- A byte as a `char`, which is signed.
abbrev pub char : ℕ → ℤ
char c = if ltb c 128 then pos c else negsuc (255 - c)

-- `a - b` of two `size_t`.
abbrev pub sub_size : ℕ → ℕ → ℕ
sub_size a b = (a + (2 ^ 64 - b)) % 2 ^ 64

-- The loop of `StrGetLength`: the final `curr_len`.
pub length_loop : ℕ → List ℕ → ℕ
length_loop zero s = 0
length_loop (suc rounds) [] = 0
length_loop (suc rounds) (c ∷ s) = if c == 0 then 0 else suc (length_loop rounds s)

pub str_get_length : List ℕ → ℕ → ℕ
unfolding length_loop
str_get_length src max_len =
    let curr_len = length_loop max_len src in if leb max_len curr_len then 0 else curr_len

-- The loop of `StrCopy`: the final `cpy_size` and the destination; `none` is a write past its end.
pub copy_loop : ℕ → List ℕ → List ℕ → Option (ℕ × List ℕ)
copy_loop zero dest src = some (0, dest)
copy_loop (suc rounds) [] src = none
copy_loop (suc rounds) (_ ∷ dest) src =
    let rest = copy_loop rounds dest (next src) in
    if char_at src == 0
    then some (0, 0 ∷ dest)
    else elim rest [ none ↦ none | some (n, dest') ↦ some (suc n, char_at src ∷ dest') ]

-- The Boolean is false where `StrCopy` returns null.
pub str_copy : List ℕ → List ℕ → ℕ → Option (Bool × List ℕ)
unfolding copy_loop
str_copy dest src max_cpy_size = elim (copy_loop max_cpy_size dest src) [
  | none ↦ none
  | some (cpy_size, dest') ↦ some (not (leb max_cpy_size cpy_size), dest')
]

-- `StrConcat`: the walk to the end of the destination leaves `curr_len` at 0, so only a `max_len` of
-- 0 is refused, and the result of `StrCopy` is dropped; `none` is a read or write past the destination.
pub concat_loop : List ℕ → List ℕ → ℕ → Option (List ℕ)
unfolding str_copy
concat_loop [] src max_len = none
concat_loop (c ∷ dest) src max_len =
    let rest = concat_loop dest src (sub_size max_len 1) in
    if c == 0
    then elim (str_copy (c ∷ dest) src max_len) [ none ↦ none | some (_, dest') ↦ some dest' ]
    else elim rest [ none ↦ none | some dest' ↦ some (c ∷ dest') ]

pub str_concat : List ℕ → List ℕ → ℕ → Option (Bool × List ℕ)
unfolding concat_loop
str_concat dest src max_len =
    if max_len == 0
    then some (false, dest)
    else elim (concat_loop dest src max_len) [ none ↦ none | some dest' ↦ some (true, dest') ]

-- `StrCompare`; the rounds run out where `curr_len >= max_len`.
unfoldable pub str_compare : List ℕ → List ℕ → ℕ → ℤ
str_compare s1 s2 zero = pos 0
str_compare s1 s2 (suc rounds) =
    let rest = str_compare (next s1) (next s2) rounds in
    if not (char_at s1 == 0) && (char_at s1 == char_at s2)
    then rest
    else char (char_at s1) -ℤ char (char_at s2)

-- `StrTok`, `StrStrip` and `StrSplit`. `isalpha` is the C library's. The results are `&start[i]` as
-- the offset i, and the new `*index`; a round is made while `*index < max_len`.
module _ (isalpha : ℕ → Bool) where
  pub tok_loop : ℕ → List ℕ → ℕ
  tok_loop zero s = 0
  tok_loop (suc rounds) [] = 0
  tok_loop (suc rounds) (c ∷ s) = if not (c == 0) && isalpha c then suc (tok_loop rounds s) else 0

  unfoldable pub str_tok : List ℕ → ℕ → ℕ → ℕ × ℕ
  unfolding tok_loop
  str_tok start max_len index = let i = tok_loop (max_len - index) start in (i, index + i)

  pub strip_loop : ℕ → List ℕ → ℕ
  strip_loop zero s = 0
  strip_loop (suc rounds) [] = 0
  strip_loop (suc rounds) (c ∷ s) =
      if not (c == 0) && not (isalpha c) then suc (strip_loop rounds s) else 0

  unfoldable pub str_strip : List ℕ → ℕ → ℕ → ℕ × ℕ
  unfolding strip_loop
  str_strip start max_len index = let i = strip_loop (max_len - index) start in (i, index + i)

  -- `end` is a position of the buffer, which is written; so is the pointer that is returned.
  unfoldable pub str_split : List ℕ → ℕ → ℕ → ℕ → List ℕ × ℕ × ℕ
  unfolding str_strip
  str_split buf end max_len index =
      let buf' = set buf end 0 in
      let (i, index') =
        str_strip (drop (suc end) buf') (sub_size max_len (suc index)) (suc index) in
      if ltb max_len (suc index) then (buf', end, suc index) else (buf', suc end + i, index')
