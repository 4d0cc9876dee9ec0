-- ===== src/Malloc/SpanList/Remove/Inner.antt =====
-- tc_malloc.c: `remove_span` inside of a ring.
use search_engine.Common.{
  get_elem?-inside, not_same, ℕ, ◌<◌, ◌≡◌, ◌≢◌, refl, sym, ap, ◌∙◌, some, List, [], ◌∷◌, ◌++◌,
  append-nil, length,
}
use mathlib.Core.Path.{subst}
use search_engine.Malloc.SpanList.{Links, prev_read, remove_inner}
use search_engine.Malloc.SpanList.Pointers.{next_of, prev_of, next_in, prev_in}
use search_engine.Malloc.SpanList.Ring.{
  Apart, Distinct, Below, last_of, Linked, Route, Ring, Apart-last, Below-same, Route-frame,
}
use search_engine.Malloc.SpanList.Remove.Unlink.{Unlinked, Inside, spanlist_pop_prev}

Route-split :
    (spans : List Links) (a : ℕ) (ys : List ℕ) (s : ℕ) (zs : List ℕ)
    → Route spans a (ys ++ s ∷ zs)
    → Route spans a ys × Linked spans (last_of a ys) s × Route spans s zs
Route-split spans a [] s zs (link, r) = (tt, link, r)
Route-split spans a (y ∷ ys) s zs (link, r) =
    let (r', link', r'') = Route-split spans y ys s zs r in ((link, r'), link', r'')

Route-join :
    (spans : List Links) (a : ℕ) (ys : List ℕ) (s : ℕ) (zs : List ℕ)
    → Route spans a ys
    → Linked spans (last_of a ys) s
    → Route spans s zs
    → Route spans a (ys ++ s ∷ zs)
Route-join spans a [] s zs r link r' = (link, r')
Route-join spans a (y ∷ ys) s zs (first, r) link r' = (first, Route-join spans y ys s zs r link r')

last_of-append :
    (a : ℕ) (ys : List ℕ) (s : ℕ) (zs : List ℕ) → last_of a (ys ++ s ∷ zs) ≡ last_of s zs
last_of-append a [] s zs = refl
last_of-append a (y ∷ ys) s zs = last_of-append y ys s zs

pub Apart-split : (p : ℕ) (ys zs : List ℕ) → Apart p (ys ++ zs) → Apart p ys × Apart p zs
Apart-split p [] zs h = (tt, h)
Apart-split p (y ∷ ys) zs (ne, h) = let (a, b) = Apart-split p ys zs h in ((ne, a), b)

Apart-join : (p : ℕ) (ys zs : List ℕ) → Apart p ys → Apart p zs → Apart p (ys ++ zs)
Apart-join p [] zs h k = k
Apart-join p (y ∷ ys) zs (ne, h) k = (ne, Apart-join p ys zs h k)

-- A span that is distinct from the others of its list.
pub Distinct-remove :
    (ys : List ℕ) (s : ℕ) (zs : List ℕ)
    → Distinct (ys ++ s ∷ zs)
    → Distinct (ys ++ zs) × Apart s (ys ++ zs)
Distinct-remove [] s zs (out, d) = (d, out)
Distinct-remove (y ∷ ys) s zs (out, d) =
    let (d', out') = Distinct-remove ys s zs d in
    let (a, (ne, b)) = Apart-split y ys (s ∷ zs) out in
    ((Apart-join y ys zs a b, d'), ((λ e. ne (sym e)), out'))

Below-remove :
    (n : ℕ) (ys : List ℕ) (s : ℕ) (zs : List ℕ)
    → Below n (ys ++ s ∷ zs)
    → (s < n) × Below n (ys ++ zs)
Below-remove n [] s zs (h, hs) = (h, hs)
Below-remove n (y ∷ ys) s zs (h, hs) = let (a, b) = Below-remove n ys s zs hs in (a, (h, b))

pub Distinct-last :
    (a : ℕ) (ys zs : List ℕ)
    → Distinct (a ∷ (ys ++ zs))
    → Apart (last_of a ys) zs × Distinct (a ∷ ys) × Distinct zs
Distinct-last a [] zs (out, d) = (out, (tt, tt), d)
Distinct-last a (y ∷ ys) zs (out, d) =
    let (apart, d', d'') = Distinct-last y ys zs d in
    (apart, ((Apart-split a (y ∷ ys) zs out).0, d'), d'')

-- A route that the span with a new next is not on.
Route-frame-Apart :
    (spans spans' : List Links) (x l span a : ℕ) (bs : List ℕ)
    → ((p : ℕ) → l ≢ p → span ≢ p → next_of spans' p ≡ next_of spans p)
    → ((p : ℕ) → x ≢ p → span ≢ p → prev_of spans' p ≡ prev_of spans p)
    → Apart l (a ∷ bs)
    → Apart span (a ∷ bs)
    → Apart x bs
    → Route spans a bs
    → Route spans' a bs
Route-frame-Apart spans spans' x l span a [] nexts prevs apart out first r = tt
Route-frame-Apart spans spans' x l span a (b ∷ bs) nexts prevs (ne_l, apart) (ne, (ne', out))
      (ne_x, first) ((n, p), r) =
    (
      (nexts a ne_l ne ∙ n, prevs b ne_x ne' ∙ p),
      Route-frame-Apart spans spans' x l span b bs nexts prevs apart (ne', out) first r,
    )

-- The span behind `s` in the ring of `x`.
abbrev pub behind : ℕ → List ℕ → ℕ
behind x [] = x
behind x (c ∷ cs) = c

Route-behind :
    (spans : List Links) (x s : ℕ) (zs : List ℕ)
    → Route spans s zs
    → Linked spans (last_of s zs) x
    → Linked spans s (behind x zs)
Route-behind spans x s [] r closed = closed
Route-behind spans x s (c ∷ cs) (link, r) closed = link

-- The ring without `s`, once `s` is unlinked.
unlinked-Ring :
    (spans spans' : List Links) (x : ℕ) (ys : List ℕ) (s : ℕ) (zs : List ℕ)
    → Ring spans x (ys ++ s ∷ zs)
    → Unlinked spans (last_of x ys) s (behind x zs) spans'
    → Ring spans' x (ys ++ zs)
unlinked-Ring spans spans' x ys s [] r u =
    let (route, link, _) = Route-split spans x ys s [] r.route in
    let (d, out) = Distinct-remove (x ∷ ys) s [] r.distinct in
    let (below, inside) = Below-remove (length spans) (x ∷ ys) s [] r.inside in
    let same : ys ++ [] ≡ ys = append-nil ys in
    let d' : Distinct (x ∷ ys) = subst (λ l. Distinct (x ∷ l)) same d in
    subst (λ l. Ring spans' x l) (sym same)
      (record {
        route =
            Route-frame spans spans' x (last_of x ys) s x ys u.nexts u.prevs refl d'
              (subst (λ l. Apart s (x ∷ l)) same out) d'.0 route;
        closed = (u.next_prev, u.prev_next);
        distinct = d';
        inside =
            Below-same (length spans) (length spans') (x ∷ ys) u.size
              (subst (λ l. Below (length spans) (x ∷ l)) same inside);
      })
unlinked-Ring spans spans' x ys s (c ∷ cs) r u =
    let (route, link, (link', route')) = Route-split spans x ys s (c ∷ cs) r.route in
    let (d, out) = Distinct-remove (x ∷ ys) s (c ∷ cs) r.distinct in
    let (below, inside) = Below-remove (length spans) (x ∷ ys) s (c ∷ cs) r.inside in
    let (apart, d_front, d_back) = Distinct-last x ys (c ∷ cs) d in
    let (out_front, out_back) = Apart-split s (x ∷ ys) (c ∷ cs) out in
    let c_apart : Apart c (x ∷ ys) =
      (Apart-split c (x ∷ ys) cs (Distinct-remove (x ∷ ys) c cs d).1).0 in
    let end = last_of-append x ys c cs in
    let old_end = last_of-append x ys s (c ∷ cs) in
    let (next_end, prev_x) = subst (λ t. Linked spans t x) old_end r.closed in
    record {
      route =
          Route-join spans' x ys c cs
            (Route-frame spans spans' c (last_of x ys) s x ys u.nexts u.prevs refl d_front out_front
              c_apart.1 route)
            (u.next_prev, u.prev_next)
            (Route-frame-Apart spans spans' c (last_of x ys) s c cs u.nexts u.prevs apart out_back
              d_back.0 route');
      closed =
          subst (λ t. Linked spans' t x) (sym end)
            (
              u.nexts (last_of c cs) (Apart-last (last_of x ys) c cs apart)
                    (Apart-last s c cs out_back)
                  ∙ next_end,
              u.prevs x c_apart.0 out_front.0 ∙ prev_x,
            );
      distinct = d;
      inside = Below-same (length spans) (length spans') (x ∷ (ys ++ c ∷ cs)) u.size inside;
    }

-- A span inside of a ring, between the one before it and the one behind it.
member-Inside :
    (spans : List Links) (x : ℕ) (ys : List ℕ) (s : ℕ) (zs : List ℕ)
    → Ring spans x (ys ++ s ∷ zs)
    → Inside spans (last_of x ys) s (behind x zs)
member-Inside spans x ys s zs r =
    let (route, link, route') = Route-split spans x ys s zs r.route in
    let (next_s, prev_b) =
      Route-behind spans x s zs route'
        (subst (λ t. Linked spans t x) (last_of-append x ys s zs) r.closed) in
    let (d, out) = Distinct-remove (x ∷ ys) s zs r.distinct in
    let (below, inside) = Below-remove (length spans) (x ∷ ys) s zs r.inside in
    let (out_front, out_back) = Apart-split s (x ∷ ys) zs out in
    let ends =
      behind_ends x s (length spans) zs out_front.0 out_back inside.0
        (behind-Below (length spans) x ys zs inside) in
    record {
      prev_span = link.1;
      next_span = next_s;
      ne_prev = λ e. Apart-last s x ys out_front (sym e);
      ne_next = ends.0;
      has_prev = last_of-lt (length spans) x ys zs inside;
      has_span = below;
      has_next = ends.1;
    }
  where
    behind_ends :
        (x s n : ℕ) (zs : List ℕ)
        → s ≢ x
        → Apart s zs
        → x < n
        → Below n zs
        → (behind x zs ≢ s) × (behind x zs < n)
    behind_ends x s n [] ne out h b = ((λ e. ne (sym e)), h)
    behind_ends x s n (c ∷ cs) ne (ne', out) h (h', b) = ((λ e. ne' (sym e)), h')

    behind-Below : (n x : ℕ) (ys zs : List ℕ) → Below n (x ∷ (ys ++ zs)) → Below n zs
    behind-Below n x [] zs (h, hs) = hs
    behind-Below n x (y ∷ ys) zs (h, hs) = behind-Below n y ys zs hs

    last_of-lt : (n x : ℕ) (ys zs : List ℕ) → Below n (x ∷ (ys ++ zs)) → last_of x ys < n
    last_of-lt n x [] zs (h, hs) = h
    last_of-lt n x (y ∷ ys) zs (h, hs) = last_of-lt n y ys zs hs

prev_read-some :
    (links : Links) (s prev : ℕ) → links.prev ≡ some prev → prev_read links s ≡ some prev
prev_read-some links s prev e = rw e refl

-- `remove_span` of a span that is not the head.
pub remove_inner-Ring :
    (spans : List Links) (x : ℕ) (ys : List ℕ) (s : ℕ) (zs : List ℕ)
    → Ring spans x (ys ++ s ∷ zs)
    → (spans' : List Links) × (remove_inner spans s ≡ some spans')
      × Ring spans' x (ys ++ zs)
      × Unlinked spans (last_of x ys) s (behind x zs) spans'
unfolding remove_inner
remove_inner-Ring spans x ys s zs r =
    let i = member-Inside spans x ys s zs r in
    let (l, at) = get_elem?-inside spans s i.has_span in
    let l_prev : l.prev ≡ some (last_of x ys) = sym (ap prev_in at) ∙ i.prev_span in
    let l_next : l.next ≡ some (behind x zs) = sym (ap next_in at) ∙ i.next_span in
    let (spans', e, u) = spanlist_pop_prev spans (last_of x ys) s (behind x zs) i in
    (
      spans',
      rw (at, prev_read-some l s (last_of x ys) l_prev, l_next)
          (rw (not_same (behind x zs) s i.ne_next, e) refl),
      unlinked-Ring spans spans' x ys s zs r u,
      u,
    )
