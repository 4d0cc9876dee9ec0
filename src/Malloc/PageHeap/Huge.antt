-- ===== src/Malloc/PageHeap/Huge.antt =====
-- tc_malloc.c: `fetch_span` of more than 256 pages where the page heap has no span for them.
use search_engine.Common.{
  ℕ, suc, ◌+◌, ◌-◌, ◌%◌, ◌^◌, ◌<◌, ◌≤◌, ◌≡◌, refl, ap, ◌∙◌, Option, none, some, [], ◌∷◌, true,
  arith, ltb, length, get_elem?, length-set, length-append, get_elem?-set_at,
}
use search_engine.Malloc.SizeClass.{pages_to_bytes}
use search_engine.Malloc.Heap.{
  Heap, Span, Location, zeroed, set_span, span_bytes, addr_to_index, page_class, update_mapping,
  alloc_span, grow,
}
use search_engine.Malloc.Heap.Mapping.{Mapped, update_mapping-Mapped}
use search_engine.Malloc.Heap.Chunk.{
  with_span, alloc_span-at, alloc_span-unplaced, get_elem?-last, set-last,
}
use search_engine.Malloc.PageHeap.{
  first_list, find_larger, isolate, fetch_huge, fetch_other, fetch_span,
}

-- A new span of `npage` pages at `addr`, where the memory ended; the memory now ends behind it.
pub record Fresh (h : Heap) (npage addr span : ℕ) (h' : Heap) : Type 0 where
  pub here :
      get_elem? h'.spans span
      ≡ some (record zeroed {
        start = addr;
        page_size = npage;
        page_id = addr_to_index addr h.ini_brk_addr;
      })
  pub end : h'.brk ≡ addr + pages_to_bytes npage
  pub count : length h'.spans ≡ suc span
  pub mapped : Mapped npage (addr_to_index addr h.ini_brk_addr) span h.page_mapping h'.page_mapping

module _ (sbrk : ℕ → ℕ → ℕ) (h : Heap) (npage : ℕ) (small : npage < 2 ^ 31) where
  -- Where the new pages begin.
  abbrev pub new_addr : ℕ
  new_addr = sbrk h.brk (pages_to_bytes npage)

  -- The steps of `fetch_huge`, each with its result.
  fetch_huge-steps :
      (new : ℕ) (made h' : Heap) (s : Span)
      → alloc_span sbrk (record h { brk = new_addr + pages_to_bytes npage }) npage (some new_addr)
        ≡ some (new, made)
      → get_elem? made.spans new ≡ some s
      → update_mapping (set_span made new (record s { start = new_addr })) new ≡ some h'
      → fetch_huge sbrk h npage ≡ some (new, h')
  unfolding fetch_huge grow
  fetch_huge-steps new made h' s e e' e'' = rw (e, e', e'') refl

  pub fetch_huge-Fresh :
      span_bytes ≤ h.rem_bytes
      → addr_to_index new_addr h.ini_brk_addr + npage ≤ length h.page_mapping
      → length h.page_mapping < 2 ^ 32
      → (h' : Heap) × (fetch_huge sbrk h npage ≡ some (length h.spans, h'))
        × Fresh h npage new_addr (length h.spans) h'
  fetch_huge-Fresh room fits width =
      let id = addr_to_index new_addr h.ini_brk_addr in
      let size : npage % 2 ^ 32 ≡ npage = omega arith in
      let id_same : id % 2 ^ 32 ≡ id = omega (arith, fits, width) in
      let grown = record h { brk = new_addr + pages_to_bytes npage } in
      let s : Span = record zeroed { page_size = npage; page_id = id } in
      let s' : Span = record s { start = new_addr } in
      let made = with_span grown s in
      let after = set_span made (length h.spans) s' in
      let at : get_elem? made.spans (length h.spans) ≡ some s = get_elem?-last h.spans s in
      let here = get_elem?-set_at made.spans (length h.spans) s' at in
      let (mapping, last, got, m) =
        update_mapping-Mapped after (length h.spans) s' here small fits in
      (
        record after { page_mapping = mapping; curr_index = last },
        fetch_huge-steps (length h.spans) made
            (record after { page_mapping = mapping; curr_index = last }) s
            (alloc_span-at sbrk grown npage new_addr id room size id_same) at got,
        record {
          here = here;
          end = refl;
          count =
              length-set made.spans (length h.spans) s'
              ∙ length-append h.spans (s ∷ [])
              ∙ omega arith;
          mapped = m;
        },
      )

page_class-big : (npage : ℕ) → 256 < npage → page_class npage ≡ 255
unfolding page_class
page_class-big npage big = ground arith

find_larger-empty :
    (h : Heap) (npage : ℕ)
    → 256 < npage
    → get_elem? h.pages 255 ≡ some none
    → find_larger h npage ≡ some none
unfolding find_larger first_list
find_larger-empty h npage big empty =
    let no_lists : 256 - npage ≡ 0 = omega arith in
    let no_first : first_list (256 - npage) npage h.pages ≡ none =
      ap (λ rounds. first_list rounds npage h.pages) no_lists in
    rw (find_larger, no_first, empty) refl

module _ (sbrk : ℕ → ℕ → ℕ) (h : Heap) (npage : ℕ) where
  -- The span that `fetch_span` makes before it looks for memory.
  abbrev pub spare_heap : Heap
  spare_heap = with_span h (record zeroed { page_size = npage % 2 ^ 32; loc = Location.isolated })

  isolate-spare :
      8 < npage
      → isolate (with_span h (record zeroed { page_size = npage % 2 ^ 32 })) (length h.spans) npage
        ≡ some spare_heap
  unfolding isolate
  isolate-spare big =
      let s : Span = record zeroed { page_size = npage % 2 ^ 32 } in
      let over : ltb 8 npage ≡ true = ground arith in
      rw (get_elem?-last h.spans s, over)
        (ap (λ spans. some (record (with_span h s) { spans = spans }))
          (set-last h.spans s (record s { loc = Location.isolated })))

  fetch_other-huge :
      (again : Heap → ℕ → Option (ℕ × Heap))
      → 256 < npage
      → get_elem? h.pages 255 ≡ some none
      → span_bytes ≤ h.rem_bytes
      → fetch_other sbrk again h npage ≡ fetch_huge sbrk spare_heap npage
  unfolding fetch_other
  fetch_other-huge again big empty room =
      let over : ltb 256 npage ≡ true = ground arith in
      rw
        (
          alloc_span-unplaced sbrk h npage room,
          isolate-spare (omega arith),
          find_larger-empty spare_heap npage big empty,
          over,
        )
        refl

  -- For more than 256 pages, with the list of the large spans empty, `fetch_span` makes a span that
  -- is in no list, and then takes the branch for a very big request.
  pub fetch_span-huge :
      (fuel : ℕ)
      → 256 < npage
      → get_elem? h.pages 255 ≡ some none
      → span_bytes ≤ h.rem_bytes
      → fetch_span sbrk (suc fuel) h npage ≡ fetch_huge sbrk spare_heap npage
  unfolding fetch_span
  fetch_span-huge fuel big empty room =
      rw (page_class-big npage big, empty) (fetch_other-huge (fetch_span sbrk fuel) big empty room)
