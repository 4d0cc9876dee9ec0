-- ===== src/Index/Reads.antt =====
-- server.c: what `parse` does with a word depends on the string at `start` only, and `parse` over a
-- whole line.
use search_engine.Common.{
  ℕ, ◌≤◌, ◌≡◌, inl, inr, refl, ap, Option, none, some, List, Bool, arith, Option-cases, length,
  get_elem?,
}
use mathlib.Core.Path.{fun_ext}
use search_engine.Hash.Horner.{hash_function-until_nul}
use search_engine.Text.Scan.{until_nul, str_get_length-until_nul}
use search_engine.Text.Compare.{str_compare-until_nul}
use search_engine.Text.Copy.{str_copy-until_nul}
use search_engine.Text.Words.{words}
use search_engine.Text.Pieces.{NoNul, held}
use search_engine.Parse.Line.{fold_words, parse_line-words}
use search_engine.Index.{
  Index, Memory, Word, dyn_size, is_zero, word_hit, lookup, new_word, unknown_word, known_or_not,
  index_word, parse,
}

pub word_hit-until_nul :
    (ws : List Word) (str : List ℕ) → word_hit ws str ≡ word_hit ws (until_nul str)
unfolding word_hit
word_hit-until_nul ws str = fun_ext (λ item. elim (Option-cases (get_elem? ws item)) [
  | inl e ↦ rw (e, word_hit)
  | inr (word, e) ↦ rw (e, word_hit) (ap is_zero (str_compare-until_nul dyn_size word.str str))
])

module _ (memory : Memory) (doc_id line_num : ℕ) (start : List ℕ) where
  new_word-until_nul :
      new_word memory doc_id line_num start ≡ new_word memory doc_id line_num (until_nul start)
  unfolding new_word
  new_word-until_nul =
      simp (← str_get_length-until_nul, ← hash_function-until_nul, ← str_copy-until_nul)

  known_or_not-until_nul :
      (hash : ℕ) (index : Index) (found : Option ℕ)
      → known_or_not memory doc_id line_num start hash index found
        ≡ known_or_not memory doc_id line_num (until_nul start) hash index found
  unfolding known_or_not unknown_word
  known_or_not-until_nul hash index (some item) = refl
  known_or_not-until_nul hash index none = rw new_word-until_nul

  lookup-until_nul :
      (index : Index) (hash : ℕ) → lookup index start hash ≡ lookup index (until_nul start) hash
  unfolding lookup
  lookup-until_nul index hash = rw (word_hit-until_nul index.words start)

  index_word-until_nul :
      (index : Index)
      → index_word memory doc_id line_num start index
        ≡ index_word memory doc_id line_num (until_nul start) index
  unfolding index_word
  index_word-until_nul index =
      simp (lookup-until_nul, known_or_not-until_nul, ← hash_function-until_nul)

-- A line of at most 5120 bytes, with the terminator behind it: `parse` indexes its words, and
-- nothing else, in order, each by the string of its letters alone.
pub parse-words :
    (isalpha : ℕ → Bool) (memory : Memory) (doc_id line_num : ℕ) (line r : List ℕ) (index : Index)
    → NoNul line
    → length line ≤ 5120
    → parse isalpha memory doc_id line_num (held line r) index
      ≡ fold_words (index_word memory doc_id line_num) (words isalpha line) index
unfolding parse
parse-words isalpha memory doc_id line_num line r index n low =
    parse_line-words isalpha (index_word memory doc_id line_num) dyn_size (omega arith)
      (λ str s. index_word-until_nul memory doc_id line_num str s) line r index n (omega arith)
