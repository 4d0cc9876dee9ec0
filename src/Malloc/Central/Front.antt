-- ===== src/Malloc/Central/Front.antt =====
-- tc_malloc.c: `fetch_objs` where the first span of the class has free objects.
use search_engine.Common.{
  ℕ, zero, suc, ◌<◌, ◌≡◌, refl, some, arith, length, get_elem?, get_elem?-lt,
}
use search_engine.Malloc.SizeClass.{index_to_size}
use search_engine.Malloc.SpanList.{Links}
use search_engine.Malloc.Heap.{Heap, Span}
use search_engine.Malloc.Central.{
  class_of, find_objs, get_span_central, fetch_from_span, fetch_objs,
}

-- The first span of a class's list that has free objects is found.
find_objs-first :
    (fuel : ℕ) (h : Heap) (span obj : ℕ) (s : Span) (links : Links)
    → 0 < fuel
    → get_elem? h.spans span ≡ some s
    → get_elem? h.links span ≡ some links
    → s.objs ≡ some obj
    → find_objs fuel h span (some span) ≡ some (some span)
unfolding find_objs
find_objs-first zero h span obj s links pos at at' e = absurd (omega (arith, pos))
find_objs-first (suc fuel) h span obj s links pos at at' e = rw (at, at') (rw e refl)

-- The class `index` with a span of free objects at the front of its list.
pub record IsStocked (h : Heap) (index span x : ℕ) (s : Span) (links : Links) : Type 0 where
  pub class : class_of (index_to_size index) ≡ some index
  pub front : get_elem? h.central index ≡ some (some span)
  pub at : get_elem? h.spans span ≡ some s
  pub at_links : get_elem? h.links span ≡ some links
  pub first : s.objs ≡ some x

pub fetch_objs-first :
    (sbrk : ℕ → ℕ → ℕ) (h : Heap) (num index span x : ℕ) (s : Span) (links : Links)
    → IsStocked h index span x s links
    → fetch_objs sbrk h num (index_to_size index) ≡ fetch_from_span h index span num
unfolding fetch_objs get_span_central
fetch_objs-first sbrk h num index span x s links k =
    let some_spans : 0 < length h.spans = omega (arith, get_elem?-lt h.spans span k.at) in
    rw (k.class, k.front)
      (rw (find_objs-first (length h.spans) h span x s links some_spans k.at k.at_links k.first)
        refl)
