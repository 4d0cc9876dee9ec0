-- ===== src/Malloc/Thread/Large.antt =====
-- tc_malloc.c: `tc_malloc` of more than THRESHALLOC bytes.
use search_engine.Common.{
  ℕ, ◌/◌, ◌%◌, ◌^◌, ◌<◌, ◌≤◌, ◌≡◌, ◌↔◌, ◌⊎◌, inl, inr, refl, ap, ◌∙◌, some, List, ◌∷◌, false, arith,
  leb, get_elem?,
}
use native.Mathlib.Decide.{dec_lt}
use search_engine.Malloc.SizeClass.{bytes_to_pages, pages_to_bytes}
use search_engine.Malloc.SpanList.Ring.{IsRing}
use search_engine.Malloc.Heap.{Heap, Span, page_class}
use search_engine.Malloc.PageHeap.{fetch_span}
use search_engine.Malloc.PageHeap.Take.{Taken, fetch_span-Taken}
use search_engine.Malloc.Thread.{thresh_alloc, tc_malloc}

pages_hold_iff : (size : ℕ) → (size ≤ pages_to_bytes (bytes_to_pages size)) ↔ (size % 2 ^ 12 ≡ 0)
unfolding pages_to_bytes bytes_to_pages
pages_hold_iff size = (λ h. omega arith, λ h. omega arith)

more_pages_hold :
    (size page_size : ℕ)
    → (size ≤ pages_to_bytes page_size) ↔ (
        (bytes_to_pages size < page_size)
        ⊎ ((bytes_to_pages size ≡ page_size) × (size % 2 ^ 12 ≡ 0)))
unfolding pages_to_bytes bytes_to_pages
more_pages_hold size n = (
  λ h. elim (dec_lt (size / 2 ^ 12) n) [ yes p ↦ inl p | no p ↦ inr (omega arith, omega arith) ],
  λ h. elim h [ inl p ↦ omega arith | inr (p, q) ↦ omega arith ],
)

-- A large request goes to the page heap.
tc_malloc-large :
    (sbrk : ℕ → ℕ → ℕ) (h h' : Heap) (size span : ℕ) (s : Span)
    → thresh_alloc < size
    → fetch_span sbrk 2 h (bytes_to_pages size) ≡ some (span, h')
    → get_elem? h'.spans span ≡ some s
    → tc_malloc sbrk h size ≡ some (s.start, h')
unfolding tc_malloc
tc_malloc-large sbrk h h' size span s large e e' =
    let over : leb size thresh_alloc ≡ false = ground arith in rw (over, e, e') refl

-- A request for more than 32768 bytes takes the first span `t` of the list that is read for
-- `size / 4096` pages, if there is one: `tc_malloc` returns where `t` begins and leaves the list
-- without it. The pages of `t` hold the object exactly if `t` has more pages than `size / 4096`, or
-- as many and the size is a multiple of 4096. So a span of `size / 4096` pages is too short for any
-- other size; and the last list, of the spans of 256 pages or more, gives its first span even if
-- that has fewer pages.
pub tc_malloc-listed :
    (sbrk : ℕ → ℕ → ℕ) (h : Heap) (size tmp : ℕ) (rest : List ℕ) (t : Span)
    → 32768 < size
    → get_elem? h.pages (page_class (bytes_to_pages size)) ≡ some (some tmp)
    → IsRing h.links (some tmp) (tmp ∷ rest)
    → get_elem? h.spans tmp ≡ some t
    → (h' : Heap) × (tc_malloc sbrk h size ≡ some (t.start, h'))
      × Taken h (page_class (bytes_to_pages size)) tmp rest h'
      × ((size ≤ pages_to_bytes t.page_size)
          ↔ ((size / 4096 < t.page_size) ⊎ ((size / 4096 ≡ t.page_size) × (size % 4096 ≡ 0))))
unfolding bytes_to_pages
tc_malloc-listed sbrk h size tmp rest t large listed ring at =
    let (h', got, taken) = fetch_span-Taken sbrk 1 h (bytes_to_pages size) tmp rest listed ring in
    (
      h',
      tc_malloc-large sbrk h h' size tmp t large got
          (ap (λ spans. get_elem? spans tmp) taken.spans_kept ∙ at),
      taken,
      more_pages_hold size t.page_size,
    )
