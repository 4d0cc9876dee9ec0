-- ===== src/Postings/Lines.antt =====
-- helper.c: the lines that a list of nodes records for each document.
use search_engine.Common.{
  ℕ, zero, suc, ◌+◌, ◌-◌, ◌%◌, ◌^◌, ◌<◌, ◌≤◌, ◌≡◌, inl, inr, refl, ap, ◌∙◌, Option, none, some,
  List, [], ◌∷◌, ◌++◌, true, false, arith, leb, ◌==◌, if◌then◌else◌, lt→ltb, leb→le, Bool-cases,
  Option-cases, length, set, take, replicate, length-set, length-append,
}
use native.Mathlib.Numerals.{add-one}
use search_engine.Common.Int.{pos}
use search_engine.Table.{Realloc}
use search_engine.Postings.{
  Link, LineMemory, list_size, resize_link, write_line, insert, create_link, lookup_link, insert_at,
  add_document, add_line,
}

-- What is expected of `tc_realloc`: it succeeds and keeps what was there; the new part holds anything.
pub record IsRealloc {ℓ} {A : Type ℓ} (realloc : Realloc A) : Type ℓ where
  pub grows :
      (xs : List A) (old new : ℕ)
      → length xs ≡ old
      → old ≤ new
      → (rest : List A) × (length rest ≡ new - old) × (realloc xs old new ≡ some (xs ++ rest))

-- What the code expects of the allocator here: `tc_calloc` succeeds and gives zeroed memory, and
-- `tc_realloc` succeeds and keeps what was there.
pub record IsLineMemory (memory : LineMemory) : Type 0 where
  pub clears : (n : ℕ) → memory.calloc n ≡ some (replicate n 0)
  pub grows : IsRealloc memory.realloc

-- The array has `list_len` elements, of which `last_index` are lines.
pub record IsLink (l : Link) : Type 0 where
  pub sized : length l.list ≡ l.list_len
  pub filled : l.last_index ≤ l.list_len
  pub small : l.list_len ≤ l.last_index + 10

abbrev pub lines : Link → List ℕ
lines l = take l.last_index l.list

take-set-end :
    (xs : List ℕ) (n v : ℕ) → n < length xs → take (suc n) (set xs n v) ≡ take n xs ++ v ∷ []
take-set-end [] n v h = elim h [ ]
take-set-end (x ∷ xs) zero v h = refl
take-set-end (x ∷ xs) (suc n) v h = ap (λ t. x ∷ t) (take-set-end xs n v (omega arith))

take-append : (xs ys : List ℕ) (n : ℕ) → n ≤ length xs → take n (xs ++ ys) ≡ take n xs
take-append xs ys zero h = refl
take-append [] ys (suc n) h = elim h [ ]
take-append (x ∷ xs) ys (suc n) h = ap (λ t. x ∷ t) (take-append xs ys n (omega arith))

-- The outcome of an insertion at the end: one more line.
pub record OneMore (l : Link) (val : ℕ) (out : Option Link) : Type 0 where
  pub link : Link
  pub result : out ≡ some link
  pub keeps : IsLink link
  pub added : lines link ≡ lines l ++ val ∷ []
  pub same : link.val ≡ l.val
  pub count : link.last_index ≡ l.last_index + 1

write_line-OneMore :
    (l : Link) (val : ℕ)
    → IsLink l
    → l.last_index < l.list_len
    → OneMore l val (write_line l val l.last_index)
unfolding write_line
write_line-OneMore l val v h = record {
  link = record l { list = set l.list l.last_index val; last_index = l.last_index + 1 };
  result = rw (lt→ltb l.last_index (length l.list) (omega (arith, v.sized)));
  keeps = record {
    sized = length-set l.list l.last_index val ∙ v.sized;
    filled = omega arith;
    small = omega (arith, v.small);
  };
  added =
      ap (λ k. take k (set l.list l.last_index val)) (add-one l.last_index)
      ∙ take-set-end l.list l.last_index val (omega (arith, v.sized));
  same = refl;
  count = refl;
}

resize_link-got :
    (memory : LineMemory) (l : Link) (list : List ℕ)
    → (l.list_len + list_size) % 2 ^ 64 ≡ l.list_len + list_size
    → memory.realloc l.list l.list_len (l.list_len + list_size) ≡ some list
    → resize_link memory l ≡ (pos 1, record l { list = list; list_len = l.list_len + list_size })
unfolding resize_link
resize_link-got memory l list e got = ground (arith, e, got)

module _ {memory : LineMemory} (law : IsLineMemory memory) where
  -- `resize` of a node keeps its lines and gives it ten more elements.
  resize_link-lines :
      (l : Link)
      → IsLink l
      → l.last_index < 2 ^ 62
      → (rest : List ℕ) × (length rest ≡ list_size)
        × (resize_link memory l
            ≡ (pos 1, record l { list = l.list ++ rest; list_len = l.list_len + list_size }))
  resize_link-lines l v few =
      let new = l.list_len + list_size in
      let (rest, len, got) = law.grows.grows l.list l.list_len new v.sized (omega arith) in
      (
        rest,
        len ∙ omega arith,
        resize_link-got memory l (l.list ++ rest) (omega (arith, v.small, few)) got,
      )

  -- `insert` of a line at `last_index` puts it behind the lines that the node has.
  pub insert-OneMore :
      (l : Link) (val : ℕ)
      → IsLink l
      → l.last_index < 2 ^ 62
      → OneMore l val (insert memory l val l.last_index)
  unfolding insert
  insert-OneMore l val v few = elim (Bool-cases (leb l.list_len l.last_index)) [
    | inl full ↦
        let (rest, ten, resized) = resize_link-lines l v few in
        let r : Link = record l { list = l.list ++ rest; list_len = l.list_len + list_size } in
        let len = length-append l.list rest in
        let o =
          write_line-OneMore r val
            (record {
              sized = omega (arith, len, ten, v.sized);
              filled = omega (arith, v.filled);
              small = omega (arith, leb→le _ _ full);
            })
            (omega (arith, v.filled)) in
        rw (full, ap (λ t. t.1) resized)
          (record {
            link = o.link;
            result = o.result;
            keeps = o.keeps;
            added =
                o.added
                ∙ ap (λ t. t ++ val ∷ [])
                    (take-append l.list rest l.last_index (omega (arith, v.sized, v.filled)));
            same = o.same;
            count = o.count;
          })
    | inr room ↦ rw room (write_line-OneMore l val v (ground arith))
  ]

-- Every node is valid and has at most `k` lines.
abbrev pub AllLinks : ℕ → List Link → Type 0
AllLinks k [] = Unit
AllLinks k (l ∷ ls) = IsLink l × (l.last_index ≤ k) × AllLinks k ls

-- The lines that the list records for a document: those of the first node with its number.
abbrev pub lines_of : List Link → ℕ → List ℕ
lines_of [] doc_id = []
lines_of (l ∷ ls) doc_id = if l.val == doc_id then lines l else lines_of ls doc_id

-- `line_num` is one more line of the document `doc_id`, and the other documents keep theirs.
pub record Recorded (k : ℕ) (ls : List Link) (doc_id line_num : ℕ) (out : Option (List Link))
    : Type 0 where
  pub list : List Link
  pub result : out ≡ some list
  pub keeps : AllLinks (suc k) list
  pub recorded :
      (other : ℕ)
      → lines_of list other
        ≡ (if doc_id == other then lines_of ls other ++ line_num ∷ [] else lines_of ls other)

pub AllLinks-suc : (k : ℕ) (ls : List Link) → AllLinks k ls → AllLinks (suc k) ls
AllLinks-suc k [] all = tt
AllLinks-suc k (l ∷ ls) (v, few, all) = (v, omega arith, AllLinks-suc k ls all)

module _ {memory : LineMemory} (law : IsLineMemory memory) (k doc_id line_num : ℕ)
    (few : k < 2 ^ 62) where
  insert_at-Recorded :
      (ls : List Link) (place : ℕ)
      → AllLinks k ls
      → lookup_link ls doc_id ≡ some place
      → Recorded k ls doc_id line_num (insert_at memory line_num ls place)
  unfolding lookup_link insert_at
  insert_at-Recorded [] place all found = cc
  insert_at-Recorded (l ∷ ls) zero (v, low, all) found =
      let o = insert-OneMore law l line_num v (omega arith) in
      let here : (l.val == doc_id) ≡ true = ground arith in
      rw (o.result, insert_at)
        (record {
          list = o.link ∷ ls;
          result = refl;
          keeps = (o.keeps, omega (arith, o.count), AllLinks-suc k ls all);
          recorded = λ other. ground (arith, o.same, o.added);
        })
  insert_at-Recorded (l ∷ ls) (suc place) (v, low, all) found =
      let away : (l.val == doc_id) ≡ false = ground arith in
      let o = insert_at-Recorded ls place all (ground arith) in
      rw (o.result, insert_at)
        (record {
          list = l ∷ o.list;
          result = refl;
          keeps = (v, omega arith, o.keeps);
          recorded = λ other. ground (arith, o.recorded other);
        })

  create_link-zeroed :
      create_link memory doc_id
      ≡ record { val = doc_id; list = replicate list_size 0; list_len = list_size; last_index = 0 }
  unfolding create_link
  create_link-zeroed = rw (law.clears list_size)

  lines_of-none : (ls : List Link) → lookup_link ls doc_id ≡ none → lines_of ls doc_id ≡ []
  unfolding lookup_link
  lines_of-none [] e = refl
  lines_of-none (l ∷ ls) e = ground (arith, lines_of-none ls)

  add_document-Recorded :
      (ls : List Link)
      → AllLinks k ls
      → lookup_link ls doc_id ≡ none
      → Recorded k ls doc_id line_num (add_document memory ls doc_id line_num)
  unfolding add_document
  add_document-Recorded ls all missing =
      let doc : Link = record {
        val = doc_id;
        list = replicate list_size 0;
        list_len = list_size;
        last_index = 0;
      } in
      let o =
        insert-OneMore law doc line_num
          (record { sized = refl; filled = omega arith; small = omega arith }) (omega arith) in
      rw (create_link-zeroed, o.result, add_document)
        (record {
          list = o.link ∷ ls;
          result = refl;
          keeps = (o.keeps, omega (arith, o.count), AllLinks-suc k ls all);
          recorded = λ other. ground (arith, o.same, o.added, lines_of-none ls missing);
        })

  -- Under an allocator that does not fail and for a list of valid nodes with fewer than 2 ^ 62 lines
  -- each, what `parse` does with the list of a word records the line, as the last one, for its
  -- document, whether the document had a node or not; the lines of the other documents stay, and the
  -- nodes stay valid.
  pub add_line-Recorded :
      (ls : List Link)
      → AllLinks k ls
      → Recorded k ls doc_id line_num (add_line memory ls doc_id line_num)
  unfolding add_line
  add_line-Recorded ls all = elim (Option-cases (lookup_link ls doc_id)) [
    | inl e ↦ rw (e, add_line) (add_document-Recorded ls all e)
    | inr (place, e) ↦ rw (e, add_line) (insert_at-Recorded ls place all e)
  ]

  -- The first line of a word.
  pub first-Recorded : Recorded k [] doc_id line_num (add_document memory [] doc_id line_num)
  unfolding lookup_link
  first-Recorded = add_document-Recorded [] tt refl
