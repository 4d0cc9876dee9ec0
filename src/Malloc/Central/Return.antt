-- ===== src/Malloc/Central/Return.antt =====
-- tc_malloc.c: the loop of `return_objs_to_centralcache`.
use search_engine.Common.{
  ℕ, ◌+◌, ◌-◌, ◌%◌, ◌^◌, ◌<◌, ◌≤◌, ◌≡◌, refl, sym, ◌∙◌, Option, some, List, [], ◌∷◌, ◌++◌, arith,
  length, get_elem?, get_elem?-set_at,
}
use search_engine.Malloc.SpanList.{write}
use search_engine.Malloc.SpanList.Ring.{Apart, Distinct}
use search_engine.Malloc.Heap.{Heap, Span, set_span, map_addr_to_span}
use search_engine.Malloc.Objects.{
  Objs, turned, Objs-write, Objs-push, Distinct-insert, Apart-append, write_other,
}
use search_engine.Malloc.Central.{return_obj, return_loop}
use search_engine.Malloc.Central.Carve.{freelist_push-small}

-- The map gives this span for each of the objects.
abbrev pub On : (ℕ → Option (Option ℕ)) → ℕ → List ℕ → Type 0
On span_of span [] = Unit
On span_of span (x ∷ xs) = (span_of x ≡ some (some span)) × On span_of span xs

-- The objects `xs` are free in the span again, the last one first, before those that were.
pub record Returned (h : Heap) (span : ℕ) (s : Span) (xs ys : List ℕ) (h' : Heap) (s' : Span)
    : Type 0 where
  pub here : get_elem? h'.spans span ≡ some s'
  pub objs : Objs h'.nexts s'.objs (turned xs ys)
  pub in_use : s'.obj_refcount + length xs ≡ s.obj_refcount
  pub obj_len_raised : s'.obj_len ≡ s.obj_len + length xs
  pub loc_kept : s'.loc ≡ s.loc
  pub others : (p : ℕ) → Apart p xs → h'.nexts p ≡ h.nexts p

abbrev one_back : Span → ℕ → Span
one_back s x = record s {
  objs = some x;
  obj_len = s.obj_len + 1;
  obj_refcount = s.obj_refcount - 1;
}

abbrev one_returned : Heap → ℕ → Span → ℕ → Heap
one_returned h span s x = set_span (record h { nexts = write h.nexts x s.objs }) span (one_back s x)

return_obj-one_returned :
    (h : Heap) (span : ℕ) (s : Span) (x : ℕ)
    → map_addr_to_span h x ≡ some (some span)
    → get_elem? h.spans span ≡ some s
    → 0 < s.obj_refcount
    → s.obj_refcount < 2 ^ 32
    → s.obj_len + 1 < 2 ^ 64
    → return_obj h x ≡ some (span, one_returned h span s x)
unfolding return_obj
return_obj-one_returned h span s x mapped at some_used small fits =
    let used : (s.obj_refcount + (2 ^ 32 - 1)) % 2 ^ 32 ≡ s.obj_refcount - 1 = omega arith in
    rw (mapped, at) (rw (freelist_push-small h.nexts s.objs s.obj_len x fits, used) refl)

-- For distinct objects of one span, that the span counts in use and has not free: the loop ends with
-- one round for each, and the objects are free in the span again. `obj_refcount` falls by their number.
-- `obj_len` rises by it, although `fetch_objs` did not lower it, so that it does not count the
-- objects of the span any more.
pub return_loop-Returned :
    (h : Heap) (span : ℕ) (s : Span) (start last : Option ℕ) (x : ℕ) (xs ys : List ℕ)
    → Objs h.nexts start (x ∷ xs)
    → On (map_addr_to_span h) span (x ∷ xs)
    → get_elem? h.spans span ≡ some s
    → Objs h.nexts s.objs ys
    → Distinct ((x ∷ xs) ++ ys)
    → length (x ∷ xs) ≤ s.obj_refcount
    → s.obj_refcount < 2 ^ 32
    → s.obj_len + length (x ∷ xs) < 2 ^ 64
    → (h' : Heap) × (s' : Span) × (return_loop (length (x ∷ xs)) h last start
        ≡ some (some span, h'))
      × Returned h span s (x ∷ xs) ys h' s'
unfolding return_loop map_addr_to_span
return_loop-Returned h span s start last x [] ys (e, o) (mapped, on) at free (out, d) used small
      fits =
    let step = return_obj-one_returned h span s x mapped at (omega arith) small (omega arith) in
    (
      one_returned h span s x,
      one_back s x,
      rw e (rw (step, o) refl),
      record {
        here = get_elem?-set_at h.spans span (one_back s x) at;
        objs = Objs-push h.nexts x s.objs ys out free;
        in_use = omega arith;
        obj_len_raised = omega arith;
        loc_kept = refl;
        others = λ p (ne, _). write_other h.nexts x p s.objs (λ q. ne (sym q));
      },
    )
return_loop-Returned h span s start last x (x' ∷ xs) ys (e, o) (mapped, on) at free (out, d) used
      small fits =
    let step = return_obj-one_returned h span s x mapped at (omega arith) small (omega arith) in
    let (out_x, out_y) = Apart-append x (x' ∷ xs) ys out in
    let (h', s', got, r) =
      return_loop-Returned (one_returned h span s x) span (one_back s x) (h.nexts x) (some span) x'
        xs (x ∷ ys) (Objs-write h.nexts x s.objs (h.nexts x) (x' ∷ xs) out_x o) on
        (get_elem?-set_at h.spans span (one_back s x) at) (Objs-push h.nexts x s.objs ys out_y free)
        (Distinct-insert (x' ∷ xs) x ys d out) (omega arith) (omega arith) (omega arith) in
    (
      h',
      s',
      rw e (rw step got),
      record {
        here = r.here;
        objs = r.objs;
        in_use = omega (arith, r.in_use);
        obj_len_raised = omega (arith, r.obj_len_raised);
        loc_kept = r.loc_kept;
        others =
            λ p (ne, apart). r.others p apart ∙ write_other h.nexts x p s.objs (λ q. ne (sym q));
      },
    )
