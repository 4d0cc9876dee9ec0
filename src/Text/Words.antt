-- ===== src/Text/Words.antt =====
-- The words of a line: its longest runs of letters, in order.
use search_engine.Common.{ℕ, List, [], ◌∷◌, ◌++◌, Bool, if◌then◌else◌}

-- A word that has ended, unless it is empty.
abbrev pub finish : List ℕ → List (List ℕ) → List (List ℕ)
finish [] rest = rest
finish (c ∷ word) rest = (c ∷ word) ∷ rest

module _ (isalpha : ℕ → Bool) where
  -- The first argument is the part of a word that has been read.
  unfoldable pub words_from : List ℕ → List ℕ → List (List ℕ)
  words_from word [] = finish word []
  words_from word (c ∷ line) =
      if isalpha c then words_from (word ++ c ∷ []) line else finish word (words_from [] line)

  unfoldable pub words : List ℕ → List (List ℕ)
  unfolding words_from
  words line = words_from [] line
