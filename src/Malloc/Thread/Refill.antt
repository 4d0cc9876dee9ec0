-- ===== src/Malloc/Thread/Refill.antt =====
-- tc_malloc.c: `allocate` with an empty cache.
use search_engine.Common.{
  ℕ, suc, ◌+◌, ◌-◌, ◌%◌, ◌^◌, ◌<◌, ◌≡◌, ◌≢◌, inl, inr, refl, sym, ap, ◌∙◌, Option, none, some, List,
  [], ◌∷◌, ◌++◌, arith, ltb, min, append-nil, Bool-cases, length, get_elem?, take, drop,
  length-take, take-append-drop, get_elem?-set_at,
}
use mathlib.Core.Path.{subst}
use search_engine.Malloc.SizeClass.{index_to_size}
use search_engine.Malloc.SpanList.{Links, freelist_pop}
use search_engine.Malloc.SpanList.Ring.{Apart, Distinct}
use search_engine.Malloc.SpanList.Remove.Inner.{Distinct-remove}
use search_engine.Malloc.Heap.{Heap, Span, ThreadList}
use search_engine.Malloc.Objects.{Objs, turned, Apart-append}
use search_engine.Malloc.Central.{class_of, max_iter, fetch_objs}
use search_engine.Malloc.Central.Front.{IsStocked, fetch_objs-first}
use search_engine.Malloc.Central.Fetch.{fetch_from_span-Fetched}
use search_engine.Malloc.Thread.{
  set_local, opt_size, raise_max, insert_to_threadcache, fetch_from_centralcache, pop_local,
  allocate,
}
use search_engine.Malloc.Thread.Insert.{insert_to_threadcache-Inserted}

raise_max-objs : (index : ℕ) (list : ThreadList) → (raise_max index list).objs ≡ list.objs
unfolding raise_max
raise_max-objs index list = elim (Bool-cases (ltb (opt_size list) 32)) [
  | inl e ↦ rw e refl
  | inr e ↦ rw e refl
]

raise_max-objlen : (index : ℕ) (list : ThreadList) → (raise_max index list).objlen ≡ list.objlen
unfolding raise_max
raise_max-objlen index list = elim (Bool-cases (ltb (opt_size list) 32)) [
  | inl e ↦ rw e refl
  | inr e ↦ rw e refl
]

-- A list stays when only objects of others, apart from it, are written.
Objs-frame :
    (nexts nexts' : ℕ → Option ℕ) (p : Option ℕ) (ts xs : List ℕ)
    → Distinct (ts ++ xs)
    → ((q : ℕ) → Apart q ts → nexts' q ≡ nexts q)
    → Objs nexts p xs
    → Objs nexts' p xs
Objs-frame nexts nexts' p ts [] d same o = o
Objs-frame nexts nexts' p ts (x ∷ xs) d same (e, o) =
    let (d', out) = Distinct-remove ts x xs d in
    (
      e,
      subst (λ q. Objs nexts' q xs) (sym (same x (Apart-front x ts xs out)))
          (Objs-frame nexts nexts' (nexts x) ts xs d' same o),
    )
  where
    Apart-front : (q : ℕ) (ts xs : List ℕ) → Apart q (ts ++ xs) → Apart q ts
    Apart-front q [] xs out = tt
    Apart-front q (t ∷ ts) xs (ne, out) = (ne, Apart-front q ts xs out)

turned-cons : (x : ℕ) (xs ys : List ℕ) → (o : ℕ) × (os : List ℕ) × (turned (x ∷ xs) ys ≡ o ∷ os)
turned-cons x [] ys = (x, ys, refl)
turned-cons x (z ∷ zs) ys = turned-cons z zs (x ∷ ys)

Distinct-front : (ts xs : List ℕ) → Distinct (ts ++ xs) → Distinct ts
Distinct-front [] xs d = tt
Distinct-front (t ∷ ts) xs (out, d) = ((Apart-append t ts xs out).0, Distinct-front ts xs d)

-- The first `n` of the free objects of the span have gone to the thread: one of them, the last, is
-- given out, and the cache holds the others, the last one first. The span has what is left.
pub record Refilled (h : Heap) (index span : ℕ) (s : Span) (objects : List ℕ) (n obj : ℕ)
    (h' : Heap) : Type 0 where
  pub rest : List ℕ
  pub list : ThreadList
  pub s' : Span
  pub given : turned (take n objects) [] ≡ obj ∷ rest
  pub cache : get_elem? h'.local index ≡ some list
  pub cached : Objs h'.nexts list.objs rest
  pub count : list.objlen ≡ n - 1
  pub here : get_elem? h'.spans span ≡ some s'
  pub left : Objs h'.nexts s'.objs (drop n objects)
  pub in_use : s'.obj_refcount ≡ s.obj_refcount + n

pop_local-some :
    (h : Heap) (index obj : ℕ) (list : ThreadList)
    → get_elem? h.local index ≡ some list
    → list.objs ≡ some obj
    → pop_local h index
      ≡ some (
        obj,
        set_local h index
            (record list { objs = h.nexts obj; objlen = (list.objlen + (2 ^ 64 - 1)) % 2 ^ 64 }),
      )
unfolding pop_local freelist_pop
pop_local-some h index obj list at e = rw at (rw e refl)

fetch_from_centralcache-steps :
    (sbrk : ℕ → ℕ → ℕ) (h h1 h2 : Heap) (index n : ℕ) (list : ThreadList) (start : Option ℕ)
    → get_elem? h.local index ≡ some list
    → fetch_objs sbrk
        (set_local h index (raise_max index list))
        (opt_size list)
        (index_to_size index)
      ≡ some (n, start, h1)
    → insert_to_threadcache n h1 start (index_to_size index) ≡ some h2
    → fetch_from_centralcache sbrk h index ≡ some h2
unfolding fetch_from_centralcache
fetch_from_centralcache-steps sbrk h h1 h2 index n list start at fetched inserted =
    rw at (rw fetched inserted)

allocate-steps :
    (sbrk : ℕ → ℕ → ℕ) (h h2 : Heap) (index nbytes : ℕ) (list : ThreadList) (out : ℕ × Heap)
    → class_of nbytes ≡ some index
    → get_elem? h.local index ≡ some list
    → list.objs ≡ none
    → fetch_from_centralcache sbrk h index ≡ some h2
    → pop_local h2 index ≡ some out
    → allocate sbrk h nbytes ≡ some out
unfolding allocate
allocate-steps sbrk h h2 index nbytes list out c at empty fetched popped =
    rw (c, at) (rw empty (rw fetched popped))

-- The cache of the thread for a class is empty, the first span of the class in the central cache has
-- the free objects `x` and `xs`, and does not come to have all its objects in use: `allocate` takes
-- the first `n` of them, where `n` is the least of the number that the cache may ask for,
-- `obj_len - obj_refcount` and the number of free objects. It gives out the last of these, the cache
-- then holds the others and counts them, and the span has the rest and counts `n` more in use.
pub allocate-Refilled :
    (sbrk : ℕ → ℕ → ℕ) (h : Heap) (nbytes index span x k : ℕ) (xs : List ℕ) (s : Span)
    (links : Links) (list : ThreadList)
    → class_of nbytes ≡ some index
    → get_elem? h.local index ≡ some list
    → list.objs ≡ none
    → list.objlen ≡ 0
    → IsStocked h index span x s links
    → Objs h.nexts s.objs (x ∷ xs)
    → Distinct (x ∷ xs)
    → max_iter (opt_size list) s.obj_len s.obj_refcount ≡ suc k
    → s.obj_refcount + suc (min k (length xs)) < 2 ^ 32
    → s.obj_refcount + suc (min k (length xs)) ≢ s.obj_len
    → (obj : ℕ) × (h' : Heap) × (allocate sbrk h nbytes ≡ some (obj, h'))
      × Refilled h index span s (x ∷ xs) (suc (min k (length xs))) obj h'
allocate-Refilled sbrk h nbytes index span x k xs s links list c at empty none_counted stocked objs
      d asked fits busy =
    let n = suc (min k (length xs)) in
    let raised = set_local h index (raise_max index list) in
    let ts = take n (x ∷ xs) in
    let (h1, s', fetched, f) =
      fetch_from_span-Fetched raised index span (opt_size list) s x k xs stocked.at objs d asked
        fits busy in
    let size : length ts ≡ n = omega (arith, length-take n (x ∷ xs)) in
    let split : Distinct (ts ++ drop n (x ∷ xs)) =
      subst Distinct (sym (take-append-drop n (x ∷ xs))) d in
    let at1 : get_elem? h1.local index ≡ some (raise_max index list) =
      ap (λ l. get_elem? l index) f.local_kept
      ∙ get_elem?-set_at h.local index (raise_max index list) at in
    let (nexts', list', inserted, i) =
      insert_to_threadcache-Inserted h1 s.objs (index_to_size index) index (raise_max index list) ts
        [] stocked.class at1 f.taken (raise_max-objs index list ∙ empty)
        (subst Distinct (sym (append-nil ts)) (Distinct-front ts (drop n (x ∷ xs)) split))
        (omega (arith, raise_max-objlen index list, none_counted, size, fits)) in
    let h2 = set_local (record h1 { nexts = nexts' }) index list' in
    let (obj, rest, given) = turned-cons x (take (min k (length xs)) xs) [] in
    let o = subst (Objs nexts' list'.objs) given i.objs in
    let at2 : get_elem? h2.local index ≡ some list' = get_elem?-set_at h1.local index list' at1 in
    let popped = pop_local-some h2 index obj list' at2 o.0 in
    let refilled =
      fetch_from_centralcache-steps sbrk h h1 h2 index (length ts) list s.objs at
        (fetch_objs-first sbrk raised (opt_size list) index span x s links (record {
          class = stocked.class;
          front = stocked.front;
          at = stocked.at;
          at_links = stocked.at_links;
          first = stocked.first;
        })
          ∙ fetched
          ∙ ap (λ m. some (m, s.objs, h1)) (sym size))
        inserted in
    (
      obj,
      _,
      allocate-steps sbrk h h2 index nbytes list _ c at empty refilled popped,
      record {
        rest = rest;
        list = record list' { objs = nexts' obj; objlen = (list'.objlen + (2 ^ 64 - 1)) % 2 ^ 64 };
        s' = s';
        given = given;
        cache = get_elem?-set_at h2.local index _ at2;
        cached = o.1;
        count = omega (arith, i.count, raise_max-objlen index list, none_counted, size, fits);
        here = f.here;
        left = Objs-frame h1.nexts nexts' s'.objs ts (drop n (x ∷ xs)) split i.others f.left;
        in_use = f.in_use;
      },
    )
