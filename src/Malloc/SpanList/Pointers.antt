-- ===== src/Malloc/SpanList/Pointers.antt =====
-- tc_malloc.h: which links `spanlist_push` and `spanlist_pop` change.
use search_engine.Common.{
  get_elem?-inside, ℕ, ◌<◌, ◌≡◌, ◌≢◌, refl, sym, ap, ◌∙◌, Option, none, some, List, arith, length,
  get_elem?, set, length-set, get_elem?-set_self, get_elem?-set_ne,
}
use native.Mathlib.Decide.{ℕ_discrete}
use search_engine.Malloc.SpanList.{Links, set_prev, set_next, ring_prev, spanlist_push}

abbrev pub next_in : Option Links → Option ℕ
next_in none = none
next_in (some l) = l.next

abbrev pub prev_in : Option Links → Option ℕ
prev_in none = none
prev_in (some l) = l.prev

-- `p->next` and `p->prev`.
abbrev pub next_of : List Links → ℕ → Option ℕ
next_of spans p = next_in (get_elem? spans p)

abbrev pub prev_of : List Links → ℕ → Option ℕ
prev_of spans p = prev_in (get_elem? spans p)

-- One field of one span is set, and no other.
pub record NextSet (spans : List Links) (ptr : ℕ) (to : Option ℕ) (spans' : List Links)
    : Type 0 where
  pub size : length spans' ≡ length spans
  pub here : next_of spans' ptr ≡ to
  pub others : (p : ℕ) → ptr ≢ p → next_of spans' p ≡ next_of spans p
  pub prevs : (p : ℕ) → prev_of spans' p ≡ prev_of spans p

pub record PrevSet (spans : List Links) (ptr : ℕ) (to : Option ℕ) (spans' : List Links)
    : Type 0 where
  pub size : length spans' ≡ length spans
  pub here : prev_of spans' ptr ≡ to
  pub others : (p : ℕ) → ptr ≢ p → prev_of spans' p ≡ prev_of spans p
  pub nexts : (p : ℕ) → next_of spans' p ≡ next_of spans p

pub set_next-NextSet :
    (spans : List Links) (ptr : ℕ) (to : Option ℕ)
    → ptr < length spans
    → (spans' : List Links) × (set_next spans ptr to ≡ some spans') × NextSet spans ptr to spans'
unfolding set_next
set_next-NextSet spans ptr to h =
    let (l, e) = get_elem?-inside spans ptr h in
    let new : Links = record l { next = to } in
    let back = get_elem?-set_self spans ptr new h in
    (
      set spans ptr new,
      rw e refl,
      record {
        size = length-set spans ptr new;
        here = ap next_in back;
        others = λ p ne. ap next_in (get_elem?-set_ne spans {i = ptr} {j = p} new ne);
        prevs = λ p. elim (ℕ_discrete ptr p) [
          | yes same ↦
              ap (prev_of (set spans ptr new)) (sym same)
              ∙ ap prev_in back
              ∙ ap prev_in (sym e)
              ∙ ap (prev_of spans) same
          | no ne ↦ ap prev_in (get_elem?-set_ne spans {i = ptr} {j = p} new ne)
        ];
      },
    )

pub set_prev-PrevSet :
    (spans : List Links) (ptr : ℕ) (to : Option ℕ)
    → ptr < length spans
    → (spans' : List Links) × (set_prev spans ptr to ≡ some spans') × PrevSet spans ptr to spans'
unfolding set_prev
set_prev-PrevSet spans ptr to h =
    let (l, e) = get_elem?-inside spans ptr h in
    let new : Links = record l { prev = to } in
    let back = get_elem?-set_self spans ptr new h in
    (
      set spans ptr new,
      rw e refl,
      record {
        size = length-set spans ptr new;
        here = ap prev_in back;
        others = λ p ne. ap prev_in (get_elem?-set_ne spans {i = ptr} {j = p} new ne);
        nexts = λ p. elim (ℕ_discrete ptr p) [
          | yes same ↦
              ap (next_of (set spans ptr new)) (sym same)
              ∙ ap next_in back
              ∙ ap next_in (sym e)
              ∙ ap (next_of spans) same
          | no ne ↦ ap next_in (get_elem?-set_ne spans {i = ptr} {j = p} new ne)
        ];
      },
    )

-- `span` has been put between `prev` and `ptr`.
pub record Between (spans : List Links) (prev span ptr : ℕ) (spans' : List Links) : Type 0 where
  pub size : length spans' ≡ length spans
  pub next_prev : next_of spans' prev ≡ some span
  pub next_span : next_of spans' span ≡ some ptr
  pub prev_span : prev_of spans' span ≡ some prev
  pub prev_ptr : prev_of spans' ptr ≡ some span
  pub nexts : (p : ℕ) → prev ≢ p → span ≢ p → next_of spans' p ≡ next_of spans p
  pub prevs : (p : ℕ) → ptr ≢ p → span ≢ p → prev_of spans' p ≡ prev_of spans p

pub spanlist_push-Between :
    (spans : List Links) (ptr prev span : ℕ)
    → prev_of spans ptr ≡ some prev
    → ptr < length spans
    → prev < length spans
    → span < length spans
    → prev ≢ span
    → ptr ≢ span
    → (spans' : List Links) × (spanlist_push spans (some ptr) span ≡ some (spans', some span))
      × Between spans prev span ptr spans'
unfolding spanlist_push ring_prev
spanlist_push-Between spans ptr prev span e h k m ne ne' =
    let (l, at) = get_elem?-inside spans ptr h in
    let has_prev : l.prev ≡ some prev = sym (ap prev_in at) ∙ e in
    let (a, ea, sa) = set_next-NextSet spans span (some ptr) m in
    let (b, eb, sb) = set_prev-PrevSet a span (some prev) (omega (arith, sa.size)) in
    let (c, ec, sc) = set_prev-PrevSet b ptr (some span) (omega (arith, sa.size, sb.size)) in
    let (d, ed, sd) =
      set_next-NextSet c prev (some span) (omega (arith, sa.size, sb.size, sc.size)) in
    (
      d,
      rw (at, has_prev) (rw (ea, eb, ec, ed) refl),
      record {
        size = sd.size ∙ sc.size ∙ sb.size ∙ sa.size;
        next_prev = sd.here;
        next_span = sd.others span ne ∙ sc.nexts span ∙ sb.nexts span ∙ sa.here;
        prev_span = sd.prevs span ∙ sc.others span ne' ∙ sb.here;
        prev_ptr = sd.prevs ptr ∙ sc.here;
        nexts = λ p n n'. sd.others p n ∙ sc.nexts p ∙ sb.nexts p ∙ sa.others p n';
        prevs = λ p n n'. sd.prevs p ∙ sc.others p n ∙ sb.others p n' ∙ sa.prevs p;
      },
    )
