-- ===== src/Malloc/SpanList/Ring.antt =====
-- tc_malloc.h: a span list as a ring of distinct spans, and `spanlist_push`.
use search_engine.Common.{
  ℕ, ◌<◌, ◌≡◌, ◌≢◌, refl, sym, ◌∙◌, Option, none, some, List, [], ◌∷◌, arith, length,
}
use search_engine.Malloc.SpanList.{Links, spanlist_push}
use search_engine.Malloc.SpanList.Pointers.{
  next_of, prev_of, set_next-NextSet, set_prev-PrevSet, spanlist_push-Between,
}

-- `x` is none of the spans, and no two are the same.
abbrev pub Apart : ℕ → List ℕ → Type 0
Apart x [] = Unit
Apart x (y ∷ ys) = (x ≢ y) × Apart x ys

abbrev pub Distinct : List ℕ → Type 0
Distinct [] = Unit
Distinct (x ∷ xs) = Apart x xs × Distinct xs

abbrev pub Below : ℕ → List ℕ → Type 0
Below n [] = Unit
Below n (x ∷ xs) = (x < n) × Below n xs

abbrev pub last_of : ℕ → List ℕ → ℕ
last_of x [] = x
last_of x (y ∷ ys) = last_of y ys

-- Two spans that point at one another.
abbrev pub Linked : List Links → ℕ → ℕ → Type 0
Linked spans a b = (next_of spans a ≡ some b) × (prev_of spans b ≡ some a)

abbrev pub Route : List Links → ℕ → List ℕ → Type 0
Route spans a [] = Unit
Route spans a (b ∷ bs) = Linked spans a b × Route spans b bs

-- From `x` round through the distinct spans `xs`, and back to `x`.
pub record Ring (spans : List Links) (x : ℕ) (xs : List ℕ) : Type 0 where
  pub route : Route spans x xs
  pub closed : Linked spans (last_of x xs) x
  pub distinct : Distinct (x ∷ xs)
  pub inside : Below (length spans) (x ∷ xs)

-- The list with this head holds these spans, first the head.
abbrev pub IsRing : List Links → Option ℕ → List ℕ → Type 0
IsRing spans head [] = head ≡ none
IsRing spans head (x ∷ xs) = (head ≡ some x) × Ring spans x xs

pub Apart-last : (a b : ℕ) (bs : List ℕ) → Apart a (b ∷ bs) → a ≢ last_of b bs
Apart-last a b [] (ne, _) = ne
Apart-last a b (c ∷ cs) (_, out) = Apart-last a c cs out

pub Below-last : (n b : ℕ) (bs : List ℕ) → Below n (b ∷ bs) → last_of b bs < n
Below-last n b [] (h, _) = h
Below-last n b (c ∷ cs) (_, hs) = Below-last n c cs hs

pub Below-same : (n m : ℕ) (xs : List ℕ) → m ≡ n → Below n xs → Below m xs
Below-same n m [] e h = h
Below-same n m (x ∷ xs) e (h, hs) = (omega arith, Below-same n m xs e hs)

-- A route stays when the links of its spans do, but for what its last span points at and what points
-- back from its first.
pub Route-frame :
    (spans spans' : List Links) (x l span a : ℕ) (bs : List ℕ)
    → ((p : ℕ) → l ≢ p → span ≢ p → next_of spans' p ≡ next_of spans p)
    → ((p : ℕ) → x ≢ p → span ≢ p → prev_of spans' p ≡ prev_of spans p)
    → l ≡ last_of a bs
    → Distinct (a ∷ bs)
    → Apart span (a ∷ bs)
    → Apart x bs
    → Route spans a bs
    → Route spans' a bs
Route-frame spans spans' x l span a [] nexts prevs e d out first r = tt
Route-frame spans spans' x l span a (b ∷ bs) nexts prevs e (apart, d) (ne, (ne', out)) (ne_x, first)
      ((n, p), r) =
    (
      (nexts a (λ e'. Apart-last a b bs apart (sym e' ∙ e)) ne ∙ n, prevs b ne_x ne' ∙ p),
      Route-frame spans spans' x l span b bs nexts prevs e d (ne', out) first r,
    )

-- What `spanlist_push` and `remove_span` leave alone.
abbrev pub SameOutside : List ℕ → List Links → List Links → Type 0
SameOutside xs spans spans' =
    (p : ℕ)
    → Apart p xs
    → (next_of spans' p ≡ next_of spans p) × (prev_of spans' p ≡ prev_of spans p)

push-Ring :
    (spans : List Links) (x : ℕ) (xs : List ℕ) (span : ℕ)
    → Ring spans x xs
    → span < length spans
    → Apart span (x ∷ xs)
    → (spans' : List Links) × (spanlist_push spans (some x) span ≡ some (spans', some span))
      × Ring spans' span (x ∷ xs)
      × SameOutside (span ∷ x ∷ xs) spans spans'
push-Ring spans x xs span r h out =
    let l = last_of x xs in
    let last_in = Below-last (length spans) x xs r.inside in
    let out_last : span ≢ l = Apart-last span x xs out in
    let (spans', e, b) =
      spanlist_push-Between spans x l span r.closed.1 r.inside.0 last_in h (λ e. out_last (sym e))
        (λ e. out.0 (sym e)) in
    (
      spans',
      e,
      record {
        route = (
          (b.next_span, b.prev_ptr),
          Route-frame spans spans' x l span x xs b.nexts b.prevs refl r.distinct out r.distinct.0
              r.route,
        );
        closed = (b.next_prev, b.prev_span);
        distinct = (out, r.distinct);
        inside = (
          omega (arith, b.size),
          Below-same (length spans) (length spans') (x ∷ xs) b.size r.inside,
        );
      },
      λ p (ne, (ne', apart)). (
        b.nexts p (λ e'. Apart-last p x xs (ne', apart) (sym e')) (λ e'. ne (sym e')),
        b.prevs p (λ e'. ne' (sym e')) (λ e'. ne (sym e')),
      ),
    )

push_first-Ring :
    (spans : List Links) (span : ℕ)
    → span < length spans
    → (spans' : List Links) × (spanlist_push spans none span ≡ some (spans', some span))
      × Ring spans' span []
      × SameOutside (span ∷ []) spans spans'
unfolding spanlist_push
push_first-Ring spans span h =
    let (a, ea, sa) = set_next-NextSet spans span (some span) h in
    let (b, eb, sb) = set_prev-PrevSet a span (some span) (omega (arith, sa.size)) in
    (
      b,
      rw (ea, eb) refl,
      record {
        route = tt;
        closed = (sb.nexts span ∙ sa.here, sb.here);
        distinct = (tt, tt);
        inside = (omega (arith, sa.size, sb.size), tt);
      },
      λ p (ne, _). (
        sb.nexts p ∙ sa.others p (λ e'. ne (sym e')),
        sb.others p (λ e'. ne (sym e')) ∙ sa.prevs p,
      ),
    )

-- A span that is not in a list comes to the front of it by `spanlist_push`, before the spans that it
-- held, which keep their order; the links of all spans outside of the list are kept, so that the
-- other lists are.
pub spanlist_push-IsRing :
    (spans : List Links) (head : Option ℕ) (xs : List ℕ) (span : ℕ)
    → IsRing spans head xs
    → span < length spans
    → Apart span xs
    → (spans' : List Links) × (spanlist_push spans head span ≡ some (spans', some span))
      × IsRing spans' (some span) (span ∷ xs)
      × SameOutside (span ∷ xs) spans spans'
spanlist_push-IsRing spans head [] span e h out =
    let (spans', got, r, same) = push_first-Ring spans span h in (spans', rw e got, (refl, r), same)
spanlist_push-IsRing spans head (x ∷ xs) span (e, r) h out =
    let (spans', got, r', same) = push-Ring spans x xs span r h out in
    (spans', rw e got, (refl, r'), same)
