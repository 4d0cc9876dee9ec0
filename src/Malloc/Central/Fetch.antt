-- ===== src/Malloc/Central/Fetch.antt =====
-- tc_malloc.c: `fetch_objs` from the span that `get_span_central` gives.
use search_engine.Common.{
  not_same, ℕ, zero, suc, ◌+◌, ◌%◌, ◌^◌, ◌<◌, ◌≡◌, ◌≢◌, refl, sym, ap, ◌∙◌, Option, none, some,
  List, [], ◌∷◌, ◌++◌, false, arith, ◌==◌, min, length, get_elem?, take, drop, take-append-drop,
  get_elem?-set_at,
}
use mathlib.Core.Path.{subst}
use search_engine.Malloc.SpanList.{write}
use search_engine.Malloc.SpanList.Ring.{Apart, Distinct, last_of, Apart-last}
use search_engine.Malloc.SpanList.Remove.Inner.{Distinct-last}
use search_engine.Malloc.Heap.{Heap, Span, set_span}
use search_engine.Malloc.Objects.{Objs, Objs-write, write_self, write_other}
use search_engine.Malloc.Central.{walk, max_iter, retire, fetch_from_span}

-- The walk over at most `k` of the objects `xs`, after the object `a`, and the cut behind the last one.
record Walked (nexts : ℕ → Option ℕ) (k a : ℕ) (xs : List ℕ) (out : Option ℕ × Option ℕ × ℕ)
    : Type 0 where
  end : ℕ
  end_lem : out.0 ≡ some end
  count : out.2 ≡ min k (length xs)
  left : Objs nexts out.1 (drop k xs)
  ends : end ≡ last_of a (take k xs)
  cut : Objs (write nexts end none) (some a) (a ∷ take k xs)

walk-Walked :
    (nexts : ℕ → Option ℕ) (k a : ℕ) (ptr : Option ℕ) (xs : List ℕ)
    → Objs nexts ptr xs
    → nexts a ≡ ptr
    → Distinct (a ∷ xs)
    → Walked nexts k a xs (walk k nexts (some a) ptr)
unfolding walk
walk-Walked nexts zero a ptr xs o e d = record {
  end = a;
  end_lem = refl;
  count = omega arith;
  left = o;
  ends = refl;
  cut = (refl, write_self nexts a none);
}
walk-Walked nexts (suc k) a ptr [] o e d = rw o (record {
  end = a;
  end_lem = refl;
  count = omega arith;
  left = refl;
  ends = refl;
  cut = (refl, write_self nexts a none);
})
walk-Walked nexts (suc k) a ptr (x ∷ xs) (p, o) e (out, d) =
    let w = walk-Walked nexts k x (nexts x) xs o refl d in
    let apart : w.end ≢ a =
      λ q. Apart-last a x (take k xs) (Apart-take a (x ∷ xs) (suc k) out) (sym q ∙ w.ends) in
    rw p (record {
      end = w.end;
      end_lem = w.end_lem;
      count = omega (arith, w.count);
      left = w.left;
      ends = w.ends;
      cut = (refl, rw (write_other nexts w.end a none apart, e, p) w.cut);
    })
  where
    Apart-take : (a : ℕ) (xs : List ℕ) (k : ℕ) → Apart a xs → Apart a (take k xs)
    Apart-take a xs zero out = tt
    Apart-take a [] (suc k) out = tt
    Apart-take a (x ∷ xs) (suc k) (ne, out) = (ne, Apart-take a xs k out)

take-min : (k : ℕ) (xs : List ℕ) → take (min k (length xs)) xs ≡ take k xs
take-min zero xs = let e : min 0 (length xs) ≡ 0 = omega arith in ap (λ n. take n xs) e
take-min (suc k) [] = let e : min (suc k) 0 ≡ 0 = omega arith in ap (λ n. take n []) e
take-min (suc k) (x ∷ xs) =
    let e : min (suc k) (suc (length xs)) ≡ suc (min k (length xs)) = omega arith in
    ap (λ n. take n (x ∷ xs)) e ∙ ap (λ t. x ∷ t) (take-min k xs)

drop-min : (k : ℕ) (xs : List ℕ) → drop (min k (length xs)) xs ≡ drop k xs
drop-min zero xs = let e : min 0 (length xs) ≡ 0 = omega arith in ap (λ n. drop n xs) e
drop-min (suc k) [] = let e : min (suc k) 0 ≡ 0 = omega arith in ap (λ n. drop n []) e
drop-min (suc k) (x ∷ xs) =
    let e : min (suc k) (suc (length xs)) ≡ suc (min k (length xs)) = omega arith in
    ap (λ n. drop n (x ∷ xs)) e ∙ drop-min k xs

-- The first `n` of the objects are a list of their own, and the span has the others.
pub record Fetched (h : Heap) (span : ℕ) (s : Span) (objects : List ℕ) (n : ℕ) (h' : Heap)
    (s' : Span) : Type 0 where
  pub here : get_elem? h'.spans span ≡ some s'
  pub taken : Objs h'.nexts s.objs (take n objects)
  pub left : Objs h'.nexts s'.objs (drop n objects)
  pub in_use : s'.obj_refcount ≡ s.obj_refcount + n
  pub obj_len_kept : s'.obj_len ≡ s.obj_len
  pub local_kept : h'.local ≡ h.local

-- From a span whose free objects are `x` and `xs`, when at least one object is asked for and the span
-- does not come to have all its objects in use: `fetch_objs` gives the first `n` objects as a list
-- that ends after them, where `n` is the least of the number asked for, `obj_len - obj_refcount` and
-- the number of free objects; the span keeps the others in their order, and counts `n` more in use.
pub fetch_from_span-Fetched :
    (h : Heap) (index span num : ℕ) (s : Span) (x k : ℕ) (xs : List ℕ)
    → get_elem? h.spans span ≡ some s
    → Objs h.nexts s.objs (x ∷ xs)
    → Distinct (x ∷ xs)
    → max_iter num s.obj_len s.obj_refcount ≡ suc k
    → s.obj_refcount + suc (min k (length xs)) < 2 ^ 32
    → s.obj_refcount + suc (min k (length xs)) ≢ s.obj_len
    → (h' : Heap) × (s' : Span) × (fetch_from_span h index span num
        ≡ some (suc (min k (length xs)), s.objs, h'))
      × Fetched h span s (x ∷ xs) (suc (min k (length xs))) h' s'
unfolding fetch_from_span retire walk
fetch_from_span-Fetched h index span num s x k xs at (e, o) d asked fits busy =
    let w = walk-Walked h.nexts k x (h.nexts x) xs o refl d in
    let n = suc (min k (length xs)) in
    let ptr = (walk k h.nexts (some x) (h.nexts x)).1 in
    let s' : Span = record s { objs = ptr; obj_refcount = (s.obj_refcount + n) % 2 ^ 32 } in
    let whole : Distinct (x ∷ (take k xs ++ drop k xs)) =
      subst (λ l. Distinct (x ∷ l)) (sym (take-append-drop k xs)) d in
    let apart : Apart w.end (drop k xs) =
      subst (λ t. Apart t (drop k xs)) (sym w.ends)
        (Distinct-last x (take k xs) (drop k xs) whole).0 in
    let taken = set_span (record h { nexts = write h.nexts w.end none }) span s' in
    let counted : (s.obj_refcount + n) % 2 ^ 32 ≡ s.obj_refcount + n = omega arith in
    let stays : ((s.obj_refcount + n) % 2 ^ 32 == s.obj_len) ≡ false =
      rw counted (not_same (s.obj_refcount + n) s.obj_len busy) in
    (
      taken,
      s',
      rw (at, asked, e) (rw (w.end_lem, w.count) (rw stays refl)),
      record {
        here = get_elem?-set_at h.spans span s' at;
        taken = rw (e, take-min k xs) w.cut;
        left = rw (drop-min k xs) (Objs-write h.nexts w.end none ptr (drop k xs) apart w.left);
        in_use = counted;
        obj_len_kept = refl;
        local_kept = refl;
      },
    )
