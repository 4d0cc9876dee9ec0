-- ===== src/Malloc/PageHeap/Split.antt =====
-- tc_malloc.c: `split_spans`.
use mathlib.Core.Path.{subst}
use search_engine.Common.{
  ℕ, ◌+◌, ◌-◌, ◌%◌, ◌^◌, ◌<◌, ◌≤◌, ◌≡◌, ◌≢◌, sym, ap, ◌∙◌, Option, some, List, ◌∷◌, false, arith,
  ◌==◌, length, get_elem?, set, get_elem?-set_ne, get_elem?-set_at, set-get_elem?,
}
use search_engine.Malloc.SizeClass.{pages_to_bytes, pages_to_bytes_32, pages_to_bytes_32-small}
use search_engine.Malloc.SpanList.Ring.{Apart, IsRing}
use search_engine.Malloc.Heap.{Heap, Span, set_span, selfish, page_class, push_page, update_mapping}
use search_engine.Malloc.Heap.Lists.{push_page-IsRing}
use search_engine.Malloc.Heap.Mapping.{Mapped, update_mapping-Mapped}
use search_engine.Malloc.PageHeap.{split_spans}

-- The pages of `t` divided in two: the front part keeps the span and is listed, and the last
-- `npage` pages are those of the new span.
pub record Divided (h : Heap) (tmp new npage : ℕ) (t n : Span) (xs : List ℕ) (h' : Heap)
    : Type 0 where
  pub front : get_elem? h'.spans tmp ≡ some (record t { page_size = t.page_size - npage })
  pub back :
      get_elem? h'.spans new
      ≡ some (record n {
        start = t.start + pages_to_bytes (t.page_size - npage);
        page_id = t.page_id + (t.page_size - npage);
      })
  pub listed : get_elem? h'.pages (page_class (t.page_size - npage)) ≡ some (some tmp)
  pub ring : IsRing h'.links (some tmp) (tmp ∷ xs)
  pub mapped : Mapped npage (t.page_id + (t.page_size - npage)) new h.page_mapping h'.page_mapping

-- The state of `split_spans` before the first span is pushed.
abbrev cut_heap : Heap → ℕ → ℕ → ℕ → ℕ → Span → Span → Heap
cut_heap h tmp new left id t n =
    let cut = set_span h tmp (record t { page_size = left }) in
    let started =
      set_span cut new (record n { start = t.start + pages_to_bytes_32 left; page_id = id }) in
    record started { links = set h.links new (selfish new) }

-- The steps of `split_spans`, each with its result.
split_spans-steps :
    (h : Heap) (tmp new npage : ℕ) (t n : Span) (left id : ℕ) (pushed h' : Heap)
    → get_elem? h.spans tmp ≡ some t
    → get_elem? h.spans new ≡ some n
    → (t.page_size + (2 ^ 32 - npage % 2 ^ 32)) % 2 ^ 32 ≡ left
    → (t.page_id + left) % 2 ^ 32 ≡ id
    → (left == 0) ≡ false
    → push_page (cut_heap h tmp new left id t n) (page_class left) tmp ≡ some pushed
    → update_mapping pushed new ≡ some h'
    → split_spans h tmp new npage ≡ some h'
unfolding split_spans
split_spans-steps h tmp new npage t n left id pushed h' at_t at_n cut_size cut_id some_left push
      mapped =
    rw (at_t, at_n) (rw (cut_size, cut_id) (rw some_left (rw push mapped)))

-- A span of the map, longer than `npage` pages by less than 2 ^ 20, and a new span of `npage` pages that is a ring of its
-- own: `split_spans` leaves the first span with its pages but the last `npage`, at the front of the
-- list for that number of pages; the new span has those last pages, begins where the other now ends,
-- and is what the map gives for them, while the map of all other pages stays.
pub split_spans-Divided :
    (h : Heap) (tmp new npage : ℕ) (t n : Span) (head : Option ℕ) (xs : List ℕ)
    → get_elem? h.spans tmp ≡ some t
    → get_elem? h.spans new ≡ some n
    → tmp ≢ new
    → get_elem? h.links new ≡ some (selfish new)
    → n.page_size ≡ npage
    → npage < t.page_size
    → t.page_size < 2 ^ 31
    → t.page_size - npage < 2 ^ 20
    → t.page_id + t.page_size ≤ length h.page_mapping
    → t.page_id + t.page_size < 2 ^ 32
    → get_elem? h.pages (page_class (t.page_size - npage)) ≡ some head
    → IsRing h.links head xs
    → tmp < length h.links
    → Apart tmp xs
    → (h' : Heap) × (split_spans h tmp new npage ≡ some h') × Divided h tmp new npage t n xs h'
unfolding split_spans
split_spans-Divided h tmp new npage t n head xs at_t at_n ne alone size less small short fits width
      listed r low out =
    let left = t.page_size - npage in
    let cut_size : (t.page_size + (2 ^ 32 - npage % 2 ^ 32)) % 2 ^ 32 ≡ left = omega arith in
    let cut_id : (t.page_id + left) % 2 ^ 32 ≡ t.page_id + left = omega arith in
    let some_left : (left == 0) ≡ false = ground arith in
    let t' : Span = record t { page_size = left } in
    let n' : Span = record n {
      start = t.start + pages_to_bytes_32 left;
      page_id = t.page_id + left;
    } in
    let cut = set_span h tmp t' in
    let started = set_span cut new n' in
    let at_n' : get_elem? cut.spans new ≡ some n =
      get_elem?-set_ne h.spans {i = tmp} {j = new} t' ne ∙ at_n in
    let exact : pages_to_bytes_32 left ≡ pages_to_bytes left = pages_to_bytes_32-small left short in
    let here_n : get_elem? started.spans new ≡ some n' = get_elem?-set_at cut.spans new n' at_n' in
    let here_t : get_elem? started.spans tmp ≡ some t' =
      get_elem?-set_ne cut.spans {i = new} {j = tmp} n' (λ e. ne (sym e))
      ∙ get_elem?-set_at h.spans tmp t' at_t in
    let same_links : set h.links new (selfish new) ≡ h.links =
      set-get_elem? h.links new (selfish new) alone in
    let (links, pushed, ring, kept) =
      push_page-IsRing (cut_heap h tmp new left (t.page_id + left) t n) (page_class left) tmp head
        xs listed (subst (λ ls. IsRing ls head xs) (sym same_links) r)
        (subst (λ ls. tmp < length ls) (sym same_links) low) out in
    let after : Heap = record started {
      links = links;
      pages = set h.pages (page_class left) (some tmp);
    } in
    let (mapping, last, mapped, m) =
      update_mapping-Mapped after new n' here_n (omega (arith, size)) (omega (arith, size)) in
    (
      record after { page_mapping = mapping; curr_index = last },
      split_spans-steps h tmp new npage t n left (t.page_id + left) after
          (record after { page_mapping = mapping; curr_index = last }) at_t at_n cut_size cut_id
          some_left pushed mapped,
      record {
        front = here_t;
        back =
            here_n
            ∙ ap (λ b. some (record n { start = t.start + b; page_id = t.page_id + left })) exact;
        listed = get_elem?-set_at h.pages (page_class left) (some tmp) listed;
        ring = ring;
        mapped = subst (λ p. Mapped p (t.page_id + left) new h.page_mapping mapping) size m;
      },
    )
