-- ===== src/Malloc/Heap/Chunk.antt =====
-- tc_malloc.c: `alloc_span` where the chunk of spans has room.
use search_engine.Common.{
  ℕ, ◌-◌, ◌%◌, ◌^◌, ◌≤◌, ◌≡◌, refl, ◌∙◌, Option, none, some, List, [], ◌∷◌, ◌++◌, false, arith, ltb,
  length, get_elem?, set, ap,
}
use mathlib.Core.Path.{ap₂}
use search_engine.Malloc.Heap.{
  addr_to_index, Heap, Span, selfish, zeroed, span_bytes, page_id_of, alloc_span,
}

-- One more span, a ring of its own, from the chunk.
abbrev pub with_span : Heap → Span → Heap
with_span h s = record h {
  links = h.links ++ selfish (length h.spans) ∷ [];
  spans = h.spans ++ s ∷ [];
  rem_bytes = h.rem_bytes - span_bytes;
}

alloc_span-room :
    (sbrk : ℕ → ℕ → ℕ) (h : Heap) (npages : ℕ) (ptr : Option ℕ)
    → span_bytes ≤ h.rem_bytes
    → alloc_span sbrk h npages ptr
      ≡ some (
        length h.spans,
        with_span h (record zeroed { page_size = npages % 2 ^ 32; page_id = page_id_of h ptr }),
      )
unfolding alloc_span
alloc_span-room sbrk h npages ptr room =
    let enough : ltb h.rem_bytes span_bytes ≡ false = ground arith in rw enough refl

-- With an address, for numbers of 32 bits.
pub alloc_span-at :
    (sbrk : ℕ → ℕ → ℕ) (h : Heap) (npages addr id : ℕ)
    → span_bytes ≤ h.rem_bytes
    → npages % 2 ^ 32 ≡ npages
    → addr_to_index addr h.ini_brk_addr % 2 ^ 32 ≡ id
    → alloc_span sbrk h npages (some addr)
      ≡ some (length h.spans, with_span h (record zeroed { page_size = npages; page_id = id }))
unfolding page_id_of
alloc_span-at sbrk h npages addr id room size same =
    alloc_span-room sbrk h npages (some addr) room
    ∙ ap₂ (λ n i. some (length h.spans, with_span h (record zeroed { page_size = n; page_id = i })))
        size same

-- Without an address, the page is 0.
pub alloc_span-unplaced :
    (sbrk : ℕ → ℕ → ℕ) (h : Heap) (npages : ℕ)
    → span_bytes ≤ h.rem_bytes
    → alloc_span sbrk h npages none
      ≡ some (length h.spans, with_span h (record zeroed { page_size = npages % 2 ^ 32 }))
unfolding page_id_of
alloc_span-unplaced sbrk h npages room = alloc_span-room sbrk h npages none room

-- The span that was added stands behind the others.
pub get_elem?-last :
    (spans : List Span) (s : Span) → get_elem? (spans ++ s ∷ []) (length spans) ≡ some s
get_elem?-last [] s = refl
get_elem?-last (x ∷ spans) s = get_elem?-last spans s

pub set-last :
    (spans : List Span) (s s' : Span) → set (spans ++ s ∷ []) (length spans) s' ≡ spans ++ s' ∷ []
set-last [] s s' = refl
set-last (x ∷ spans) s s' = ap (λ t. x ∷ t) (set-last spans s s')
