-- ===== src/Malloc/SpanList/Remove.antt =====
-- tc_malloc.h and tc_malloc.c: `spanlist_pop` and `remove_span` on a ring.
pub mod Unlink
pub mod Inner
use search_engine.Common.{
  get_elem?-inside, is_same, not_same, ℕ, zero, suc, ◌+◌, ◌-◌, ◌*◌, ◌/◌, ◌%◌, ◌^◌, ◌<◌, ◌≤◌, ◌≡◌,
  ◌≢◌, ◌⊎◌, ◌↔◌, inl, inr, refl, sym, ap, ◌∙◌, Option, none, some, List, [], ◌∷◌, ◌++◌, Bool, true,
  false, not, ◌&&◌, ◌||◌, arith, ltb, leb, ◌==◌, min, append-nil, append_assoc, if◌then◌else◌,
  ltb→lt, lt→ltb, leb→le, ==_iff, Bool-cases, Option-cases, length, get_elem?, set, get_or, take,
  drop, replicate, length-set, get_elem?-set_self, get_elem?-set_ne, length-append,
  length-replicate, length-take, length-drop, take-append-drop, get_elem?-set_inv, ◌>>=◌,
  get_elem?-set_at, drop-add, drop-suc, drop-append, drop-set, get_or-drop,
}
use mathlib.Core.Path.{subst}
use search_engine.Malloc.SpanList.{Links, spanlist_pop, remove_span}
use search_engine.Malloc.SpanList.Pointers.{next_of, prev_of, next_in}
use search_engine.Malloc.SpanList.Ring.{
  Apart, Below, last_of, Ring, IsRing, Apart-last, Below-last, Below-same, Route-frame, SameOutside,
}
use Unlink.{Unlinked, Inside, spanlist_pop_head}
use Inner.{behind, remove_inner-Ring, Distinct-remove, Apart-split}

-- What `remove_span` of `span` leaves of a list, of which the spans `rest` stay.
pub record Removed (spans : List Links) (span : ℕ) (all rest : List ℕ)
    (out : Option (List Links × Option ℕ)) : Type 0 where
  pub spans' : List Links
  pub head' : Option ℕ
  pub result : out ≡ some (spans', head')
  pub ring : IsRing spans' head' rest
  pub alone : Ring spans' span []
  pub same : SameOutside all spans spans'

-- A span that is unlinked is a ring of its own.
Unlinked-alone :
    {spans spans' : List Links} {prev span next : ℕ}
    → Unlinked spans prev span next spans'
    → span < length spans
    → Ring spans' span []
Unlinked-alone u h = record {
  route = tt;
  closed = (u.next_span, u.prev_span);
  distinct = (tt, tt);
  inside = (omega (arith, u.size), tt);
}

remove_only :
    (spans : List Links) (span : ℕ)
    → Ring spans span []
    → Removed spans span (span ∷ []) [] (remove_span spans (some span) span)
unfolding remove_span spanlist_pop
remove_only spans span r =
    let (l, at) = get_elem?-inside spans span r.inside.0 in
    let l_next : l.next ≡ some span = sym (ap next_in at) ∙ r.closed.0 in
    record {
      spans' = spans;
      head' = none;
      result = rw (is_same span) (rw (at, l_next) (rw (is_same span) refl));
      ring = refl;
      alone = r;
      same = λ p out. (refl, refl);
    }

remove_head :
    (spans : List Links) (span b : ℕ) (bs : List ℕ)
    → Ring spans span (b ∷ bs)
    → Removed spans span (span ∷ b ∷ bs) (b ∷ bs) (remove_span spans (some span) span)
unfolding remove_span
remove_head spans span b bs r =
    let l = last_of b bs in
    let out = r.distinct.0 in
    let i : Inside spans l span b = record {
      prev_span = r.closed.1;
      next_span = r.route.0.0;
      ne_prev = λ e. Apart-last span b bs out (sym e);
      ne_next = λ e. out.0 (sym e);
      has_prev = Below-last (length spans) b bs r.inside.1;
      has_span = r.inside.0;
      has_next = r.inside.1.0;
    } in
    let (spans', e, u) = spanlist_pop_head spans l span b i in
    record {
      spans' = spans';
      head' = some b;
      result = rw (is_same span) e;
      ring = (
        refl,
        record {
          route =
              Route-frame spans spans' b l span b bs u.nexts u.prevs refl r.distinct.1 out
                r.distinct.1.0 r.route.1;
          closed = (u.next_prev, u.prev_next);
          distinct = r.distinct.1;
          inside = Below-same (length spans) (length spans') (b ∷ bs) u.size r.inside.1;
        },
      );
      alone = Unlinked-alone u r.inside.0;
      same = λ p (ne, (ne_b, apart)). (
        u.nexts p (λ e'. Apart-last p b bs (ne_b, apart) (sym e')) (λ e'. ne (sym e')),
        u.prevs p (λ e'. ne_b (sym e')) (λ e'. ne (sym e')),
      );
    }

Apart-behind : (p x : ℕ) (zs : List ℕ) → p ≢ x → Apart p zs → behind x zs ≢ p
Apart-behind p x [] ne out e = ne (sym e)
Apart-behind p x (c ∷ cs) ne out e = out.0 (sym e)

Apart-before : (p x : ℕ) (ys zs : List ℕ) → Apart p (x ∷ (ys ++ zs)) → p ≢ last_of x ys
Apart-before p x [] zs (ne, out) = ne
Apart-before p x (y ∷ ys) zs (ne, out) = Apart-before p y ys zs out

remove_other :
    (spans : List Links) (x : ℕ) (ys : List ℕ) (span : ℕ) (zs : List ℕ)
    → Ring spans x (ys ++ span ∷ zs)
    → Removed spans span (x ∷ (ys ++ span ∷ zs)) (x ∷ (ys ++ zs)) (remove_span spans (some x) span)
unfolding remove_span
remove_other spans x ys span zs r =
    let (spans', e, ring, u) = remove_inner-Ring spans x ys span zs r in
    let ne : span ≢ x = (Distinct-remove (x ∷ ys) span zs r.distinct).1.0 in
    record {
      spans' = spans';
      head' = some x;
      result = rw (not_same x span (λ e'. ne (sym e')), e) refl;
      ring = (refl, ring);
      alone = Unlinked-alone u (below-member (length spans) x ys zs span r.inside);
      same = λ p (ne_x, out).
          let (front, (ne_s, back)) = Apart-split p ys (span ∷ zs) out in
          (
            u.nexts p (λ e'. Apart-before p x ys (span ∷ zs) (ne_x, out) (sym e'))
                (λ e'. ne_s (sym e')),
            u.prevs p (Apart-behind p x zs ne_x back) (λ e'. ne_s (sym e')),
          );
    }
  where
    below-member : (n x : ℕ) (ys zs : List ℕ) (s : ℕ) → Below n (x ∷ (ys ++ s ∷ zs)) → s < n
    below-member n x [] zs s (h, (k, hs)) = k
    below-member n x (y ∷ ys) zs s (h, hs) = below-member n y ys zs s hs

-- `remove_span` of any span of a list, the head or another, takes this span out: the list holds the
-- others in their order, with the next span as its head where the head was removed; the span is a
-- ring of its own, and the links of all spans outside of the list are kept.
pub remove_span-IsRing :
    (spans : List Links) (head : Option ℕ) (ys : List ℕ) (span : ℕ) (zs : List ℕ)
    → IsRing spans head (ys ++ span ∷ zs)
    → Removed spans span (ys ++ span ∷ zs) (ys ++ zs) (remove_span spans head span)
remove_span-IsRing spans head [] span [] (e, r) = rw e (remove_only spans span r)
remove_span-IsRing spans head [] span (b ∷ bs) (e, r) = rw e (remove_head spans span b bs r)
remove_span-IsRing spans head (x ∷ ys) span zs (e, r) = rw e (remove_other spans x ys span zs r)
