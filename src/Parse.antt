-- ===== src/Parse.antt =====
-- server.c: the loop of `parse` over a line. What it does with a word is the argument `body`, over a
-- state `S`, and is given the string at `start`; `isalpha` is the C library's.
pub mod Cut
pub mod Line
use search_engine.Common.{
  ℕ, zero, suc, ◌+◌, Option, none, some, List, Bool, not, ◌&&◌, ltb, ◌==◌, if◌then◌else◌, get_or,
  drop,
}
use search_engine.Text.{sub_size, str_strip, str_tok, str_split}

-- The bytes from a position on, where `*ptr` is its first.
abbrev pub byte_at : List ℕ → ℕ → ℕ
byte_at buf ptr = get_or buf ptr 0

module _ (isalpha : ℕ → Bool) (max_len : ℕ) where
  -- The end of a word: `StrTok`, and `StrSplit` unless the line ends there.
  pub cut : List ℕ → ℕ → ℕ → List ℕ × ℕ × ℕ
  cut buf start index =
      let len = sub_size max_len index in
      let (j, index') = str_tok isalpha (drop start buf) len index in
      let end = start + j in
      if byte_at buf end == 0 then (buf, end, index') else str_split isalpha buf end len index'

module _ {S : Type 0} (isalpha : ℕ → Bool) (body : List ℕ → S → Option S) (max_len : ℕ) where
  -- A round from where `StrStrip` has stopped; `loop` is the rounds that follow.
  pub word_round : (List ℕ → ℕ → ℕ → S → Option S) → List ℕ → ℕ → ℕ → S → Option S
  word_round loop buf start index s =
      let (buf', ptr', index') = cut isalpha max_len buf start index in
      if byte_at buf start == 0
      then some s
      else elim (body (drop start buf') s) [ none ↦ none | some s' ↦ loop buf' ptr' index' s' ]

  -- A round, with its test.
  pub round : (List ℕ → ℕ → ℕ → S → Option S) → List ℕ → ℕ → ℕ → S → Option S
  round loop buf ptr index s =
      let (i, index') = str_strip isalpha (drop ptr buf) (sub_size max_len index) index in
      if ltb index max_len && not (byte_at buf ptr == 0)
      then word_round loop buf (ptr + i) index' s
      else some s

  -- The loop, with at most `fuel` rounds; `none` is a fault of the body, or no fuel left.
  pub parse_loop : ℕ → List ℕ → ℕ → ℕ → S → Option S
  parse_loop zero buf ptr index s = none
  parse_loop (suc fuel) buf ptr index s = round (parse_loop fuel) buf ptr index s

  -- A round moves `index`, so `max_len + 1` rounds are enough.
  pub parse_line : List ℕ → S → Option S
  unfolding parse_loop
  parse_line buf s = parse_loop (suc max_len) buf 0 0 s
