-- ===== src/Malloc/PageHeap/Take.antt =====
-- tc_malloc.c: `fetch_span` where the list of its own number of pages has a span.
use search_engine.Common.{
  ℕ, suc, ◌≡◌, ◌≢◌, refl, Option, some, List, [], ◌∷◌, get_elem?, set, get_elem?-set_ne,
  get_elem?-set_at,
}
use search_engine.Malloc.SpanList.Ring.{IsRing, SameOutside}
use search_engine.Malloc.Heap.{Heap, page_class}
use search_engine.Malloc.Heap.Lists.{remove_page-IsRing}
use search_engine.Malloc.PageHeap.{fetch_span}

-- The list without its first span.
pub record Taken (h : Heap) (i tmp : ℕ) (rest : List ℕ) (h' : Heap) : Type 0 where
  pub head : Option ℕ
  pub listed : get_elem? h'.pages i ≡ some head
  pub ring : IsRing h'.links head rest
  pub spans_kept : h'.spans ≡ h.spans
  pub pages_kept : (j : ℕ) → i ≢ j → get_elem? h'.pages j ≡ get_elem? h.pages j
  pub links_kept : SameOutside (tmp ∷ rest) h.links h'.links

-- Where the list for `npage` pages has a span, `fetch_span` takes the first one from the list and
-- returns it as it is, without a look at its number of pages. For 256 pages or more that is the list
-- of all spans of 256 pages or more, so that the span may have fewer pages than were asked for, or
-- any number more.
pub fetch_span-Taken :
    (sbrk : ℕ → ℕ → ℕ) (fuel : ℕ) (h : Heap) (npage tmp : ℕ) (rest : List ℕ)
    → get_elem? h.pages (page_class npage) ≡ some (some tmp)
    → IsRing h.links (some tmp) (tmp ∷ rest)
    → (h' : Heap) × (fetch_span sbrk (suc fuel) h npage ≡ some (tmp, h'))
      × Taken h (page_class npage) tmp rest h'
unfolding fetch_span
fetch_span-Taken sbrk fuel h npage tmp rest e r =
    let i = page_class npage in
    let (links, head, got, ring, same) = remove_page-IsRing h i tmp (some tmp) [] rest e r in
    (
      record h { links = links; pages = set h.pages i head },
      rw e (rw got refl),
      record {
        head = head;
        listed = get_elem?-set_at h.pages i head e;
        ring = ring;
        spans_kept = refl;
        pages_kept = λ j ne. get_elem?-set_ne h.pages {i = i} {j = j} head ne;
        links_kept = same;
      },
    )
