-- ===== src/Parse/Line.antt =====
-- server.c: `parse` hands the words of a line to its body.
use search_engine.Common.{
  ℕ, zero, suc, ◌+◌, ◌-◌, ◌*◌, ◌^◌, ◌<◌, ◌≤◌, ◌≡◌, inl, inr, refl, sym, ap, ◌∙◌, Option, none, some,
  List, [], ◌∷◌, Bool, true, false, arith, ltb, ◌==◌, lt→ltb, Bool-cases, Option-cases, length,
  drop, drop-add,
}
use search_engine.Text.{sub_size, str_strip, strip_loop}
use search_engine.Text.Scan.{until_nul}
use search_engine.Text.Words.{words_from, words, finish}
use search_engine.Text.Pieces.{NoNul, held, AtLetter, strip_loop-Stripped}
use search_engine.Parse.{byte_at, cut, word_round, round, parse_loop, parse_line}
use search_engine.Parse.Cut.{byte_at-drop, cut-Round}

-- The body over a list of words, in order.
unfoldable pub fold_words : {S : Type 0} → (List ℕ → S → Option S) → List (List ℕ) → S → Option S
fold_words body [] s = some s
fold_words body (word ∷ rest) s = elim (body word s) [
  | none ↦ none
  | some s' ↦ fold_words body rest s'
]

finish-cons :
    (word : List ℕ) (rest : List (List ℕ)) → 0 < length word → finish word rest ≡ word ∷ rest
finish-cons [] rest h = elim h [ ]
finish-cons (c ∷ word) rest h = refl

module _ {S : Type 0} (isalpha : ℕ → Bool) (body : List ℕ → S → Option S) (max_len : ℕ) where
  -- A round that is made, once `StrStrip` has skipped `i` bytes.
  round-made :
      (loop : List ℕ → ℕ → ℕ → S → Option S) (buf : List ℕ) (ptr index i : ℕ) (s : S)
      → strip_loop isalpha (sub_size max_len index - index) (drop ptr buf) ≡ i
      → ltb index max_len ≡ true
      → (byte_at buf ptr == 0) ≡ false
      → round isalpha body max_len loop buf ptr index s
        ≡ word_round isalpha body max_len loop buf (ptr + i) (index + i) s
  unfolding round str_strip
  round-made loop buf ptr index i s e more nonzero = rw (more, nonzero, e)

  -- At the terminator the loop ends.
  round-ended :
      (loop : List ℕ → ℕ → ℕ → S → Option S) (buf : List ℕ) (ptr index : ℕ) (s : S)
      → byte_at buf ptr ≡ 0
      → round isalpha body max_len loop buf ptr index s ≡ some s
  unfolding round
  round-ended loop buf ptr index s e = elim (Bool-cases (ltb index max_len)) [
    | inl p ↦ rw (p, e)
    | inr p ↦ rw p
  ]

  -- What is to be shown of the loop on `f` rounds.
  abbrev FoldsWords : ℕ → Type 0
  FoldsWords f =
      (buf line r : List ℕ) (ptr index : ℕ) (s : S)
      → drop ptr buf ≡ held line r
      → NoNul line
      → index + index + 2 * length line ≤ max_len
      → length line < f
      → parse_loop isalpha body max_len f buf ptr index s
        ≡ fold_words body (words_from isalpha [] line) s

  module _ (small : max_len < 2 ^ 63)
      (reads_string : (str : List ℕ) (s : S) → body str s ≡ body (until_nul str) s) where
    -- The round behind what `StrStrip` has skipped, given the rounds that follow it.
    word_round-words :
        (f : ℕ)
        → FoldsWords f
        → (buf line r : List ℕ) (ptr index : ℕ) (s : S) → drop ptr buf ≡ held line r
        → NoNul line
        → index + index + 2 * length line ≤ max_len
        → length line ≤ f
        → AtLetter isalpha line
        → word_round isalpha body max_len (parse_loop isalpha body max_len f) buf ptr index s
          ≡ fold_words body (words_from isalpha [] line) s
    unfolding word_round words_from fold_words
    word_round-words f ih buf [] r ptr index s h n low enough letter = rw (byte_at-drop buf ptr h)
    word_round-words f ih buf (c ∷ line) r ptr index s h (ne, n) low enough letter =
        let nonzero : (c == 0) ≡ false = ground arith in
        let q = cut-Round isalpha max_len small buf (c ∷ line) r ptr index h (ne, n) low in
        let at_word = λ (t : S).
          reads_string (drop ptr (cut isalpha max_len buf ptr index).0) t
          ∙ ap (λ w. body w t) q.reads in
        let in_order : words_from isalpha [] (c ∷ line) ≡ q.word ∷ words_from isalpha [] q.rest =
          q.same_words ∙ finish-cons q.word _ (q.some_word letter (omega arith)) in
        rw (byte_at-drop buf ptr h, nonzero, at_word s, in_order)
          (elim (Option-cases (body q.word s)) [
            | inl e ↦ rw (e, fold_words)
            | inr (s', e) ↦
                let shorter = q.shorter letter (omega arith) in
                rw (e, fold_words)
                  (ih _ q.rest q.behind _ _ s' q.continues q.clean (omega (arith, q.bound))
                    (omega (arith, shorter)))
          ])

    parse_loop-words : (f : ℕ) → FoldsWords f
    unfolding parse_loop fold_words words_from
    parse_loop-words zero buf line r ptr index s h n low enough = absurd (omega arith)
    parse_loop-words (suc f) buf [] r ptr index s h n low enough =
        round-ended (parse_loop isalpha body max_len f) buf ptr index s (byte_at-drop buf ptr h)
    parse_loop-words (suc f) buf (c ∷ line) r ptr index s h n low enough =
        let rounds = sub_size max_len index - index in
        let p = strip_loop-Stripped isalpha rounds (c ∷ line) r n in
        let i = strip_loop isalpha rounds (held (c ∷ line) r) in
        let there : byte_at buf ptr ≡ c = byte_at-drop buf ptr h in
        let nonzero : (byte_at buf ptr == 0) ≡ false = ground arith in
        round-made (parse_loop isalpha body max_len f) buf ptr index i s
          (ap (strip_loop isalpha rounds) h) (lt→ltb index max_len (omega arith)) nonzero
        ∙ word_round-words f (parse_loop-words f) buf p.rest r (ptr + i) (index + i) s
            (drop-add ptr i buf ∙ ap (drop i) h ∙ p.drops) p.clean (omega (arith, p.count))
            (omega (arith, p.count)) (p.stops (omega arith))
        ∙ ap (λ ws. fold_words body ws s) (sym p.same_words)

    -- A line of at most half of `max_len` bytes, with the terminator behind it: `parse` ends without
    -- running out of rounds, and has handed the words of the line, and nothing else, to its body, one
    -- by one and in order.
    pub parse_line-words :
        (line r : List ℕ) (s : S)
        → NoNul line
        → 2 * length line ≤ max_len
        → parse_line isalpha body max_len (held line r) s ≡ fold_words body (words isalpha line) s
    unfolding parse_line words
    parse_line-words line r s n low =
        parse_loop-words (suc max_len) (held line r) line r 0 0 s refl n (omega arith) (omega arith)
