-- ===== src/Parse/Cut.antt =====
-- server.c: one round of the loop of `parse` takes the first word of the line.
use search_engine.Common.{
  ℕ, suc, ◌+◌, ◌-◌, ◌*◌, ◌^◌, ◌<◌, ◌≤◌, ◌≡◌, refl, ap, ◌∙◌, List, [], ◌∷◌, ◌++◌, Bool, false, arith,
  ltb, ◌==◌, append-nil, if◌then◌else◌, length, set, get_or, drop, length-append, drop-add,
  drop-suc, drop-append, drop-set, get_or-drop,
}
use mathlib.Core.Path.{subst}
use search_engine.Text.{sub_size, str_tok, tok_loop, strip_loop, str_split}
use search_engine.Text.Scan.{until_nul}
use search_engine.Text.Words.{words_from, finish}
use search_engine.Text.Pieces.{
  NoNul, held, AtLetter, AtOther, strip_loop-Stripped, Taken, tok_loop-Taken,
}
use search_engine.Parse.{byte_at, cut}

until_nul-held : (word r : List ℕ) → NoNul word → until_nul (held word r) ≡ word
unfolding until_nul
until_nul-held [] r n = refl
until_nul-held (c ∷ word) r (ne, n) =
    let nonzero : (c == 0) ≡ false = ground arith in
    rw nonzero (ap (λ t. c ∷ t) (until_nul-held word r n))

set-held :
    (word rest r : List ℕ) (d : ℕ)
    → set (held (word ++ d ∷ rest) r) (length word) 0 ≡ held word (held rest r)
set-held [] rest r d = refl
set-held (c ∷ word) rest r d = ap (λ t. c ∷ t) (set-held word rest r d)

drop-held : (word rest r : List ℕ) → drop (length word) (held (word ++ rest) r) ≡ held rest r
drop-held [] rest r = refl
drop-held (c ∷ word) rest r = drop-held word rest r

-- The outcome of `cut` at a word with `tail` behind it: the string at `start` is the word, and the
-- next round starts at `rest`, with the same words to come.
record Cut (isalpha : ℕ → Bool) (start index : ℕ) (word tail : List ℕ) (out : List ℕ × ℕ × ℕ)
    : Type 0 where
  rest : List ℕ
  behind : List ℕ
  reads : until_nul (drop start out.0) ≡ word
  continues : drop out.1 out.0 ≡ held rest behind
  bound : out.2 + length rest ≤ index + length word + length tail
  shorter : length rest ≤ length tail
  clean : NoNul rest
  same_words : AtOther isalpha tail → words_from isalpha [] tail ≡ words_from isalpha [] rest

-- A position `n` bytes further on.
drop-word :
    (buf word rest r : List ℕ) (start : ℕ)
    → drop start buf ≡ held (word ++ rest) r
    → drop (start + length word) buf ≡ held rest r
drop-word buf word rest r start h =
    drop-add start (length word) buf ∙ ap (drop (length word)) h ∙ drop-held word rest r

pub byte_at-drop :
    (buf : List ℕ) (ptr : ℕ) {c : ℕ} {s : List ℕ} → drop ptr buf ≡ c ∷ s → byte_at buf ptr ≡ c
byte_at-drop buf ptr h = get_or-drop ptr buf 0 ∙ ap (λ t. get_or t 0 0) h

module _ (isalpha : ℕ → Bool) (max_len : ℕ) where
  -- `cut`, once the letters are counted.
  cut-count :
      (buf : List ℕ) (start index : ℕ) {j : ℕ}
      → tok_loop isalpha (sub_size max_len index - index) (drop start buf) ≡ j
      → cut isalpha max_len buf start index ≡ (
          if byte_at buf (start + j) == 0
          then (buf, start + j, index + j)
          else str_split isalpha buf (start + j) (sub_size max_len index) (index + j))
  unfolding cut str_tok
  cut-count buf start index e =
      ap
        (λ i.
          if byte_at buf (start + i) == 0
          then (buf, start + i, index + i)
          else str_split isalpha buf (start + i) (sub_size max_len index) (index + i))
        e

  -- The line ends with the word.
  end-Cut :
      (buf word r : List ℕ) (start index : ℕ)
      → drop start buf ≡ held (word ++ []) r
      → NoNul word
      → Cut isalpha start index word [] (buf, start + length word, index + length word)
  end-Cut buf word r start index h n = record {
    rest = [];
    behind = r;
    reads = ap until_nul (h ∙ ap (λ t. held t r) (append-nil word)) ∙ until_nul-held word r n;
    continues = drop-word buf word [] r start h;
    bound = omega arith;
    shorter = omega arith;
    clean = tt;
    same_words = λ _. refl;
  }

  -- The word ends at another byte.
  split-Cut :
      (buf word tail r : List ℕ) (d start index len : ℕ)
      → drop start buf ≡ held (word ++ d ∷ tail) r
      → NoNul word
      → NoNul tail
      → index + length word < len
      → Cut isalpha start index word
          (d ∷ tail)
          (str_split isalpha buf (start + length word) len (index + length word))
  unfolding str_split words_from
  split-Cut buf word tail r d start index len h n n' low =
      let end = start + length word in
      let buf' = set buf end 0 in
      let cutoff : drop start buf' ≡ held word (held tail r) =
        drop-set start (length word) buf 0
        ∙ ap (λ t. set t (length word) 0) h
        ∙ set-held word tail r d in
      let after : drop (suc end) buf' ≡ held tail r =
        drop-suc end buf'
        ∙ ap (drop 1) (
            drop-add start (length word) buf'
            ∙ ap (drop (length word)) cutoff
            ∙ drop-append word (0 ∷ held tail r)) in
      let rounds = sub_size len (suc (index + length word)) - suc (index + length word) in
      let p = strip_loop-Stripped isalpha rounds tail r n' in
      let go : (ltb len (suc (index + length word))) ≡ false = ground arith in
      rw (go, after)
        (record {
          rest = p.rest;
          behind = r;
          reads = ap until_nul cutoff ∙ until_nul-held word (held tail r) n;
          continues =
              drop-add (suc end) (strip_loop isalpha rounds (held tail r)) buf'
              ∙ ap (drop (strip_loop isalpha rounds (held tail r))) after
              ∙ p.drops;
          bound = omega (arith, p.count);
          shorter = omega (arith, p.count);
          clean = p.clean;
          same_words = λ other. rw other p.same_words;
        })

-- One round of the loop from the start of a line: the word that the body is given, and the line of
-- the next round.
pub record Round (isalpha : ℕ → Bool) (start index : ℕ) (line : List ℕ) (out : List ℕ × ℕ × ℕ)
    : Type 0 where
  pub word : List ℕ
  pub rest : List ℕ
  pub behind : List ℕ
  pub reads : until_nul (drop start out.0) ≡ word
  pub continues : drop out.1 out.0 ≡ held rest behind
  pub bound : out.2 + length rest ≤ index + length line
  pub clean : NoNul rest
  pub same_words : words_from isalpha [] line ≡ finish word (words_from isalpha [] rest)
  pub some_word : AtLetter isalpha line → 0 < length line → 0 < length word
  pub shorter : AtLetter isalpha line → 0 < length line → length rest < length line

letter-word :
    (isalpha : ℕ → Bool) (word tail : List ℕ)
    → AtLetter isalpha (word ++ tail)
    → AtOther isalpha tail
    → 0 < length word + length tail
    → 0 < length word
letter-word isalpha [] [] letter other long = absurd (omega arith)
letter-word isalpha [] (d ∷ tail) letter other long = cc (letter, other)
letter-word isalpha (c ∷ word) tail letter other long = omega arith

module _ (isalpha : ℕ → Bool) (max_len : ℕ) (small : max_len < 2 ^ 63) where
  tail-Cut :
      (buf word tail r : List ℕ) (start index : ℕ)
      → drop start buf ≡ held (word ++ tail) r
      → NoNul word
      → NoNul tail
      → index + index + 2 * (length word + length tail) ≤ max_len
      → Cut isalpha start index word tail (
          if byte_at buf (start + length word) == 0
          then (buf, start + length word, index + length word)
          else str_split isalpha buf
              (start + length word)
              (sub_size max_len index)
              (index + length word))
  tail-Cut buf word [] r start index h n n' low =
      let zero_there : byte_at buf (start + length word) ≡ 0 =
        byte_at-drop buf (start + length word) (drop-word buf word [] r start h) in
      rw zero_there (end-Cut isalpha max_len buf word r start index h n)
  tail-Cut buf word (d ∷ tail) r start index h n (ne, n') low =
      let there : byte_at buf (start + length word) ≡ d =
        byte_at-drop buf (start + length word) (drop-word buf word (d ∷ tail) r start h) in
      let nonzero : (d == 0) ≡ false = ground arith in
      rw (there, nonzero)
        (split-Cut isalpha max_len buf word tail r d start index (sub_size max_len index) h n n'
          (omega arith))

  Taken-Round :
      (buf line r : List ℕ) (start index : ℕ)
      → drop start buf ≡ held line r
      → index + index + 2 * length line ≤ max_len
      → Taken isalpha [] line (tok_loop isalpha (sub_size max_len index - index) (held line r))
      → Round isalpha start index line (cut isalpha max_len buf start index)
  Taken-Round buf line r start index h low p =
      let size : length line ≡ length p.word + length p.rest =
        ap length p.splits ∙ length-append p.word p.rest in
      let at : drop start buf ≡ held (p.word ++ p.rest) r = h ∙ ap (λ t. held t r) p.splits in
      let c =
        tail-Cut buf p.word p.rest r start index at p.clean.0 p.clean.1 (omega (arith, size)) in
      let longer : AtLetter isalpha line → 0 < length line → 0 < length p.word = λ letter long.
        letter-word isalpha p.word p.rest (subst (AtLetter isalpha) p.splits letter) p.stops
          (omega (arith, size)) in
      let counted : tok_loop isalpha (sub_size max_len index - index) (drop start buf)
          ≡ length p.word =
        ap (tok_loop isalpha (sub_size max_len index - index)) h ∙ p.count in
      rw (cut-count isalpha max_len buf start index counted) (record {
        word = p.word;
        rest = c.rest;
        behind = c.behind;
        reads = c.reads;
        continues = c.continues;
        bound = omega (arith, c.bound, size);
        clean = c.clean;
        same_words = p.same_words ∙ ap (finish p.word) (c.same_words p.stops);
        some_word = longer;
        shorter = λ letter long. omega (arith, size, c.shorter, longer letter long);
      })

  pub cut-Round :
      (buf line r : List ℕ) (start index : ℕ)
      → drop start buf ≡ held line r
      → NoNul line
      → index + index + 2 * length line ≤ max_len
      → Round isalpha start index line (cut isalpha max_len buf start index)
  cut-Round buf line r start index h n low =
      Taken-Round buf line r start index h low
        (tok_loop-Taken isalpha (sub_size max_len index - index) [] line r n (omega arith))
