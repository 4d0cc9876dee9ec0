-- ===== src/Text/Pieces.antt =====
-- helper.c: what `StrStrip` skips and what `StrTok` takes of a line.
use search_engine.Common.{
  ℕ, zero, suc, ◌+◌, ◌≤◌, ◌≡◌, ◌≢◌, inl, inr, refl, ap, ◌∙◌, List, [], ◌∷◌, ◌++◌, Bool, true, false,
  arith, ◌==◌, append-nil, append_assoc, Bool-cases, length, drop,
}
use search_engine.Text.{tok_loop, strip_loop}
use search_engine.Text.Words.{finish, words_from}

-- No byte of the line is the terminator.
abbrev pub NoNul : List ℕ → Type 0
NoNul [] = Unit
NoNul (c ∷ line) = (c ≢ 0) × NoNul line

-- The bytes of a buffer that holds the line, and `r` behind its terminator.
abbrev pub held : List ℕ → List ℕ → List ℕ
held line r = line ++ 0 ∷ r

module _ (isalpha : ℕ → Bool) where
  -- A line that is empty, or begins with a letter; one that is empty, or does not.
  abbrev pub AtLetter : List ℕ → Type 0
  AtLetter [] = Unit
  AtLetter (c ∷ line) = isalpha c ≡ true

  abbrev pub AtOther : List ℕ → Type 0
  AtOther [] = Unit
  AtOther (c ∷ line) = isalpha c ≡ false

  -- What `StrStrip` leaves of a line, after `i` bytes that are not of a word.
  pub record Stripped (rounds : ℕ) (line r : List ℕ) (i : ℕ) : Type 0 where
    pub rest : List ℕ
    pub drops : drop i (held line r) ≡ held rest r
    pub count : i + length rest ≡ length line
    pub clean : NoNul rest
    pub same_words : words_from isalpha [] line ≡ words_from isalpha [] rest
    pub stops : length line ≤ rounds → AtLetter rest

  pub strip_loop-Stripped :
      (rounds : ℕ) (line r : List ℕ)
      → NoNul line
      → Stripped rounds line r (strip_loop isalpha rounds (held line r))
  unfolding strip_loop words_from
  strip_loop-Stripped zero [] r n = record {
    rest = [];
    drops = refl;
    count = refl;
    clean = n;
    same_words = refl;
    stops = λ h. tt;
  }
  strip_loop-Stripped zero (c ∷ line) r n = record {
    rest = c ∷ line;
    drops = refl;
    count = omega arith;
    clean = n;
    same_words = refl;
    stops = λ h. absurd (omega arith);
  }
  strip_loop-Stripped (suc rounds) [] r n = record {
    rest = [];
    drops = refl;
    count = refl;
    clean = n;
    same_words = refl;
    stops = λ h. tt;
  }
  strip_loop-Stripped (suc rounds) (c ∷ line) r n =
      let nonzero : (c == 0) ≡ false = ground arith in
      elim (Bool-cases (isalpha c)) [
        | inl e ↦
            rw (nonzero, e)
              (record {
                rest = c ∷ line;
                drops = refl;
                count = omega arith;
                clean = n;
                same_words = refl;
                stops = λ h. e;
              })
        | inr e ↦
            let p = strip_loop-Stripped rounds line r n.1 in
            rw (nonzero, e)
              (record {
                rest = p.rest;
                drops = p.drops;
                count = omega (arith, p.count);
                clean = p.clean;
                same_words = rw e p.same_words;
                stops = λ h. p.stops (omega arith);
              })
      ]

  -- What `StrTok` takes of a line: `word`, of `j` letters.
  pub record Taken (acc line : List ℕ) (j : ℕ) : Type 0 where
    pub word : List ℕ
    pub rest : List ℕ
    pub splits : line ≡ word ++ rest
    pub count : j ≡ length word
    pub clean : NoNul word × NoNul rest
    pub same_words : words_from isalpha acc line ≡ finish (acc ++ word) (words_from isalpha [] rest)
    pub stops : AtOther rest

  pub tok_loop-Taken :
      (rounds : ℕ) (acc line r : List ℕ)
      → NoNul line
      → length line ≤ rounds
      → Taken acc line (tok_loop isalpha rounds (held line r))
  unfolding tok_loop words_from
  tok_loop-Taken zero acc [] r n h = record {
    word = [];
    rest = [];
    splits = refl;
    count = refl;
    clean = (tt, tt);
    same_words = rw append-nil;
    stops = tt;
  }
  tok_loop-Taken zero acc (c ∷ line) r n h = elim h [ ]
  tok_loop-Taken (suc rounds) acc [] r n h = record {
    word = [];
    rest = [];
    splits = refl;
    count = refl;
    clean = (tt, tt);
    same_words = rw append-nil;
    stops = tt;
  }
  tok_loop-Taken (suc rounds) acc (c ∷ line) r n h =
      let nonzero : (c == 0) ≡ false = ground arith in
      elim (Bool-cases (isalpha c)) [
        | inl e ↦
            let p = tok_loop-Taken rounds (acc ++ c ∷ []) line r n.1 (omega arith) in
            rw (nonzero, e)
              (record {
                word = c ∷ p.word;
                rest = p.rest;
                splits = ap (λ t. c ∷ t) p.splits;
                count = omega (arith, p.count);
                clean = ((n.0, p.clean.0), p.clean.1);
                same_words = rw e (
                    p.same_words
                    ∙ ap (λ w. finish w (words_from isalpha [] p.rest))
                        (append_assoc acc (c ∷ []) p.word));
                stops = p.stops;
              })
        | inr e ↦
            rw (nonzero, e)
              (record {
                word = [];
                rest = c ∷ line;
                splits = refl;
                count = refl;
                clean = (tt, n);
                same_words = rw (e, append-nil);
                stops = e;
              })
      ]
