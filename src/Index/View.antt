-- ===== src/Index/View.antt =====
-- server.c: what a search sees of the index, and its invariant.
use search_engine.Common.{
  ℕ, zero, suc, ◌%◌, ◌<◌, ◌≤◌, ◌≡◌, ◌≢◌, ◌⊎◌, inl, inr, refl, sym, ap, ◌∙◌, Option, none, some,
  List, [], ◌∷◌, ◌++◌, true, arith, ◌==◌, ==_iff, Option-cases, if◌then◌else◌, length, take,
  get_elem?,
}
use search_engine.Common.Int.{ℤ, pos, negsuc}
use search_engine.Text.Compare.{IsBytes, str_compare-both}
use search_engine.Hash.{hash_function}
use search_engine.Text.Scan.{until_nul}
use search_engine.Postings.Lines.{AllLinks, lines_of, IsLineMemory}
use search_engine.Table.Slots.{IsValid}
use search_engine.Index.{Index, Memory, Word, dyn_size, is_zero, word_hit, lookup}
use search_engine.Index.Agree.{Points}

-- Where a string is looked for, and what is found there: a fault, nothing, or a word.
abbrev pub home : Index → List ℕ → ℕ
home index str = hash_function str % index.table.phys_len

abbrev pub place_of : Index → List ℕ → Option (Option ℕ)
place_of index str = lookup index str (home index str)

-- The lines that a word records for a document.
abbrev pub lines_at : Index → ℕ → ℕ → List ℕ
lines_at index item doc_id = elim (get_elem? index.words item) [
  | none ↦ []
  | some word ↦ lines_of word.list doc_id
]

-- The lines that a search for a string finds in a document.
abbrev pub recorded : Index → List ℕ → ℕ → List ℕ
recorded index str doc_id = elim (place_of index str) [
  | none ↦ []
  | some none ↦ []
  | some (some item) ↦ lines_at index item doc_id
]

-- A string of bytes without its terminator, short enough for `parse`.
pub record IsWord (str : List ℕ) : Type 0 where
  pub bytes : IsBytes str
  pub ends : until_nul str ≡ str
  pub short : length str < 2048

-- The array has its size, its pointers lead to words, and their lists are valid with at most `k`
-- lines in a document. Every word in the table is found by its string.
pub record IsIndex (k : ℕ) (index : Index) : Type 0 where
  pub valid : IsValid index.table
  pub points : Points (length index.words) index.table
  pub links : (item : ℕ) (w : Word) → get_elem? index.words item ≡ some w → AllLinks k w.list
  pub some_cells : 0 < index.table.phys_len
  pub strings :
      (item : ℕ) (w : Word) → get_elem? index.words item ≡ some w → IsBytes (until_nul w.str)
  pub findable :
      (str : List ℕ) (i item : ℕ)
      → IsWord str
      → get_elem? index.table.dyn_list i ≡ some (some item)
      → word_hit index.words str item ≡ true
      → (first : ℕ) × (place_of index str ≡ some (some first))

-- What the index expects of the allocator: it gives the bytes that it is asked for, and does not
-- fail.
pub record IsMemory (memory : Memory) : Type 0 where
  pub gives : (n : ℕ) → (buffer : List ℕ) × (memory.bytes n ≡ some buffer) × (length buffer ≡ n)
  pub lines : IsLineMemory memory.lines

-- `index'` is `index` with one more line of one word: the word is found, with the line behind those
-- that it had in this document and with the same lines in the others; every string that was found is
-- found at the same place, and every other word records the same lines as before, found or not.
pub record OneLine (k : ℕ) (index index' : Index) (str : List ℕ) (doc_id line_num : ℕ)
    : Type 0 where
  pub keeps : IsIndex (suc k) index'
  pub found : (item : ℕ) × (place_of index' str ≡ some (some item))
  pub adds :
      (other : ℕ)
      → recorded index' str other ≡ (
          if doc_id == other
          then recorded index str other ++ line_num ∷ []
          else recorded index str other)
  pub stays :
      (str' : List ℕ) (item : ℕ)
      → place_of index str' ≡ some (some item)
      → place_of index' str' ≡ some (some item)
  pub others :
      (str' : List ℕ)
      → IsWord str'
      → str' ≢ str
      → (other : ℕ) → recorded index' str' other ≡ recorded index str' other

-- A word that is found records the lines of the place where it is found.
pub recorded-at :
    (index : Index) (str : List ℕ) (item doc_id : ℕ)
    → place_of index str ≡ some (some item)
    → recorded index str doc_id ≡ lines_at index item doc_id
recorded-at index str item doc_id h = rw (h, recorded)

-- A word that is not found records nothing.
pub recorded-missed :
    (index : Index) (str : List ℕ) (doc_id : ℕ)
    → ((item : ℕ) → place_of index str ≢ some (some item))
    → recorded index str doc_id ≡ []
recorded-missed index str doc_id h = elim (Option-cases (place_of index str)) [
  | inl e ↦ rw (e, recorded)
  | inr (none, e) ↦ rw (e, recorded)
  | inr (some item, e) ↦ absurd (h item e)
]

-- A string is found, or it is not.
pub place_of-cases :
    (index : Index) (str : List ℕ)
    → ((item : ℕ) × (place_of index str ≡ some (some item)))
      ⊎ ((item : ℕ) → place_of index str ≢ some (some item))
place_of-cases index str = elim (Option-cases (place_of index str)) [
  | inl e ↦ inr (λ item h. cc (e, h))
  | inr (none, e) ↦ inr (λ item h. cc (e, h))
  | inr (some item, e) ↦ inl (item, e)
]

take-all : (n : ℕ) (s : List ℕ) → length s ≤ n → take n s ≡ s
take-all zero [] h = refl
take-all zero (c ∷ s) h = elim h [ ]
take-all (suc n) [] h = refl
take-all (suc n) (c ∷ s) h = ap (λ t. c ∷ t) (take-all n s (omega arith))

-- Two words that compare as equal with the same word of the index are the same.
pub word_hit-one :
    (ws : List Word) (item : ℕ) (str str' : List ℕ)
    → ((w : Word) → get_elem? ws item ≡ some w → IsBytes (until_nul w.str))
    → IsWord str
    → IsWord str'
    → word_hit ws str item ≡ true
    → word_hit ws str' item ≡ true
    → str ≡ str'
unfolding word_hit
word_hit-one ws item str str' strings is is' h h' = elim (Option-cases (get_elem? ws item)) [
  | inl e ↦ cc (rw (e, word_hit) at h)
  | inr (w, e) ↦
      let same =
        str_compare-both dyn_size w.str str str' (strings w e) is.bytes is'.bytes
          (is_zero-pos _ (rw (e, word_hit) at h)) (is_zero-pos _ (rw (e, word_hit) at h')) in
      sym (whole str is) ∙ same ∙ whole str' is'
]
  where
    is_zero-pos : (z : ℤ) → is_zero z ≡ true → z ≡ pos 0
    is_zero-pos (pos n) h = ap pos ((==_iff n 0).0 h)
    is_zero-pos (negsuc n) h = cc

    whole : (s : List ℕ) → IsWord s → take dyn_size (until_nul s) ≡ s
    whole s is = rw is.ends (take-all dyn_size s (omega (arith, is.short)))

pub lines_at-word :
    (index : Index) (item doc_id : ℕ) (w : Word)
    → get_elem? index.words item ≡ some w
    → lines_at index item doc_id ≡ lines_of w.list doc_id
lines_at-word index item doc_id w h = rw (h, lines_at)
