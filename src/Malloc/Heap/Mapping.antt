-- ===== src/Malloc/Heap/Mapping.antt =====
-- tc_malloc.c: `update_mapping` and `map_addr_to_span`.
use search_engine.Common.{
  get_elem?-inside, ℕ, zero, suc, ◌+◌, ◌-◌, ◌/◌, ◌%◌, ◌^◌, ◌<◌, ◌≤◌, ◌≡◌, ◌⊎◌, inl, inr, refl, sym,
  ap, ◌∙◌, Option, none, some, List, [], ◌∷◌, arith, ltb, if◌then◌else◌, Option-cases, length,
  get_elem?, set, length-set, get_elem?-set_self, get_elem?-set_ne,
}
use native.Mathlib.Decide.{dec_lt}
use search_engine.Malloc.SizeClass.{bytes_to_pages}
use search_engine.Malloc.Heap.{
  Heap, Span, addr_to_index, map_pages, page_rounds, update_mapping, map_addr_to_span,
}

-- The pages from `id` on that a span now has in the map, and the others as before.
pub record Mapped (rounds id span : ℕ) (old new : List (Option ℕ)) : Type 0 where
  pub size : length new ≡ length old
  pub inside : (j : ℕ) → id ≤ j → j < id + rounds → get_elem? new j ≡ some (some span)
  pub outside : (j : ℕ) → (j < id) ⊎ (id + rounds ≤ j) → get_elem? new j ≡ get_elem? old j

pub map_pages-Mapped :
    (rounds id span : ℕ) (mapping : List (Option ℕ))
    → id + rounds ≤ length mapping
    → (mapping' : List (Option ℕ)) × (map_pages rounds id span mapping ≡ some mapping')
      × Mapped rounds id span mapping mapping'
unfolding map_pages
map_pages-Mapped zero id span mapping h = (
  mapping,
  refl,
  record { size = refl; inside = λ j p q. absurd (omega arith); outside = λ j p. refl },
)
map_pages-Mapped (suc rounds) id span mapping h =
    let (old, e) = get_elem?-inside mapping id (omega arith) in
    let step = set mapping id (some span) in
    let same = length-set mapping id (some span) in
    let (new, got, m) = map_pages-Mapped rounds (suc id) span step (omega (arith, same)) in
    (
      new,
      rw e got,
      record {
        size = m.size ∙ same;
        inside = λ j p q. elim (dec_lt id j) [
          | yes lt ↦ m.inside j lt (omega arith)
          | no ge ↦
              let at : id ≡ j = omega arith in
              m.outside j (inl (omega arith))
              ∙ ap (get_elem? step) (sym at)
              ∙ get_elem?-set_self mapping id (some span) (omega arith)
        ];
        outside = λ j p.
            m.outside j (elim p [ inl a ↦ inl (omega arith) | inr b ↦ inr (omega arith) ])
            ∙ get_elem?-set_ne mapping {i = id} {j = j} (some span)
                (λ e'. elim p [ inl a ↦ omega (arith, e', a) | inr b ↦ omega (arith, e', b) ]);
      },
    )

-- Where the map ends before the pages do, `update_mapping` writes outside of it.
pub map_pages_faults :
    (rounds id span : ℕ) (mapping : List (Option ℕ))
    → length mapping < id + rounds
    → 0 < rounds
    → map_pages rounds id span mapping ≡ none
unfolding map_pages
map_pages_faults zero id span mapping h k = elim k [ ]
map_pages_faults (suc rounds) id span mapping h k = elim (Option-cases (get_elem? mapping id)) [
  | inl e ↦ rw e refl
  | inr (old, e) ↦ rw e (elim (dec_lt 0 rounds) [
    | yes some_left ↦
        map_pages_faults rounds (suc id) span (set mapping id (some span))
          (omega (arith, length-set mapping id (some span))) some_left
    | no none_left ↦ absurd (omega (arith, get_elem?-bound mapping id old e))
  ])
]
  where
    get_elem?-bound :
        (xs : List (Option ℕ)) (i : ℕ) (a : Option ℕ) → get_elem? xs i ≡ some a → i < length xs
    get_elem?-bound [] i a e = cc
    get_elem?-bound (x ∷ xs) zero a e = omega arith
    get_elem?-bound (x ∷ xs) (suc i) a e = omega (arith, get_elem?-bound xs i a e)

-- The address is in one of the pages of the span, counted from the first page of the heap.
abbrev pub InPages : Heap → Span → ℕ → Type 0
InPages h s ptr =
    (bytes_to_pages h.ini_brk_addr + s.page_id ≤ bytes_to_pages ptr)
    × (bytes_to_pages ptr < bytes_to_pages h.ini_brk_addr + s.page_id + s.page_size)

-- `update_mapping` changes the map and its `curr_index`, and nothing else.
pub update_mapping-Mapped :
    (h : Heap) (span : ℕ) (s : Span)
    → get_elem? h.spans span ≡ some s
    → s.page_size < 2 ^ 31
    → s.page_id + s.page_size ≤ length h.page_mapping
    → (mapping : List (Option ℕ)) × (last : ℕ) × (update_mapping h span
        ≡ some (record h { page_mapping = mapping; curr_index = last }))
      × Mapped s.page_size s.page_id span h.page_mapping mapping
unfolding update_mapping page_rounds
update_mapping-Mapped h span s e small fits =
    let small_rounds : page_rounds s.page_size ≡ s.page_size = ground arith in
    let (mapping, got, m) = map_pages-Mapped s.page_size s.page_id span h.page_mapping fits in
    let last = (s.page_id + s.page_size) % 2 ^ 32 in
    (
      mapping,
      if ltb last h.curr_index then h.curr_index else last,
      rw (e, small_rounds, got) refl,
      m,
    )

-- A span of fewer than 2 ^ 31 pages that lie in the page map: after `update_mapping` of it,
-- `map_addr_to_span` gives this span for each address in its pages, and for each other address of
-- the heap what it gave before.
pub map_addr_to_span-update_mapping :
    (h : Heap) (span : ℕ) (s : Span)
    → get_elem? h.spans span ≡ some s
    → s.page_size < 2 ^ 31
    → s.page_id + s.page_size ≤ length h.page_mapping
    → (h' : Heap) × (update_mapping h span ≡ some h')
      × ((ptr : ℕ) → ptr < 2 ^ 64 → InPages h s ptr → map_addr_to_span h' ptr ≡ some (some span))
      × ((ptr : ℕ)
          → ptr < 2 ^ 64
          → h.ini_brk_addr ≤ ptr
          → (InPages h s ptr → ⊥)
          → map_addr_to_span h' ptr ≡ map_addr_to_span h ptr)
unfolding map_addr_to_span addr_to_index bytes_to_pages
map_addr_to_span-update_mapping h span s e small fits =
    let (mapping, last, got, m) = update_mapping-Mapped h span s e small fits in
    (
      record h { page_mapping = mapping; curr_index = last },
      got,
      λ ptr low i.
          m.inside ((ptr / 2 ^ 12 + (2 ^ 64 - h.ini_brk_addr / 2 ^ 12)) % 2 ^ 64) (omega arith)
            (omega arith),
      λ ptr low above out.
          let page = (ptr / 2 ^ 12 + (2 ^ 64 - h.ini_brk_addr / 2 ^ 12)) % 2 ^ 64 in
          m.outside page (elim (dec_lt page s.page_id) [
            | yes a ↦ inl a
            | no a ↦ elim (dec_lt page (s.page_id + s.page_size)) [
              | yes b ↦ absurd (out (omega arith, omega arith))
              | no b ↦ inr (omega arith)
            ]
          ]),
    )
