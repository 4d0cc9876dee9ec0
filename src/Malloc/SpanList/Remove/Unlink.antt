-- ===== src/Malloc/SpanList/Remove/Unlink.antt =====
-- tc_malloc.h: which links `spanlist_pop` changes.
use search_engine.Common.{
  get_elem?-inside, is_same, not_same, ℕ, ◌<◌, ◌≡◌, ◌≢◌, refl, sym, ap, ◌∙◌, some, List, arith,
  length,
}
use search_engine.Malloc.SpanList.{Links, set_prev, set_next, pop_head, pop_linked, spanlist_pop}
use search_engine.Malloc.SpanList.Pointers.{
  next_of, prev_of, next_in, prev_in, NextSet, PrevSet, set_next-NextSet, set_prev-PrevSet,
}

-- `span` has been taken out between `prev` and `next`, and is a ring of its own.
pub record Unlinked (spans : List Links) (prev span next : ℕ) (spans' : List Links) : Type 0 where
  pub size : length spans' ≡ length spans
  pub next_prev : next_of spans' prev ≡ some next
  pub prev_next : prev_of spans' next ≡ some prev
  pub next_span : next_of spans' span ≡ some span
  pub prev_span : prev_of spans' span ≡ some span
  pub nexts : (p : ℕ) → prev ≢ p → span ≢ p → next_of spans' p ≡ next_of spans p
  pub prevs : (p : ℕ) → next ≢ p → span ≢ p → prev_of spans' p ≡ prev_of spans p

-- A span between two others, which may be the same.
pub record Inside (spans : List Links) (prev span next : ℕ) : Type 0 where
  pub prev_span : prev_of spans span ≡ some prev
  pub next_span : next_of spans span ≡ some next
  pub ne_prev : prev ≢ span
  pub ne_next : next ≢ span
  pub has_prev : prev < length spans
  pub has_span : span < length spans
  pub has_next : next < length spans

module _ (spans : List Links) (prev span next : ℕ) (i : Inside spans prev span next) where
  -- The two ends are linked with one another.
  Joined : Type 0
  Joined =
      (a b : List Links) × (set_next spans prev (some next) ≡ some a)
      × (set_prev a next (some prev) ≡ some b)
      × NextSet spans prev (some next) a
      × PrevSet a next (some prev) b

  joined : Joined
  unfolding Joined
  joined =
      let (a, ea, sa) = set_next-NextSet spans prev (some next) i.has_prev in
      let (b, eb, sb) = set_prev-PrevSet a next (some prev) (omega (arith, sa.size, i.has_next)) in
      (a, b, ea, eb, sa, sb)

  -- `spanlist_pop` at the head gives the next span as the new head.
  pub spanlist_pop_head :
      (spans' : List Links) × (spanlist_pop spans (some span) span ≡ some (spans', some next))
      × Unlinked spans prev span next spans'
  unfolding spanlist_pop pop_linked pop_head Joined
  spanlist_pop_head =
      let (l, at) = get_elem?-inside spans span i.has_span in
      let l_prev : l.prev ≡ some prev = sym (ap prev_in at) ∙ i.prev_span in
      let l_next : l.next ≡ some next = sym (ap next_in at) ∙ i.next_span in
      let (a, b, ea, eb, sa, sb) = joined in
      let b_size : length b ≡ length spans = sb.size ∙ sa.size in
      let (m, at_b) = get_elem?-inside b span (omega (arith, b_size, i.has_span)) in
      let m_next : m.next ≡ some next =
        sym (ap next_in at_b) ∙ sb.nexts span ∙ sa.others span i.ne_prev ∙ i.next_span in
      let (d, ed, sd) = set_next-NextSet b span (some span) (omega (arith, b_size, i.has_span)) in
      let (e, ee, se) =
        set_prev-PrevSet d span (some span) (omega (arith, sd.size, b_size, i.has_span)) in
      (
        e,
        rw (at, l_next, l_prev)
            (rw (not_same next span i.ne_next, ea, eb)
              (rw (is_same span, at_b, m_next) (rw (not_same next span i.ne_next, ed, ee) refl))),
        record {
          size = se.size ∙ sd.size ∙ b_size;
          next_prev =
              se.nexts prev ∙ sd.others prev (λ q. i.ne_prev (sym q)) ∙ sb.nexts prev ∙ sa.here;
          prev_next = se.others next (λ q. i.ne_next (sym q)) ∙ sd.prevs next ∙ sb.here;
          next_span = se.nexts span ∙ sd.here;
          prev_span = se.here;
          nexts = λ p n n'. se.nexts p ∙ sd.others p n' ∙ sb.nexts p ∙ sa.others p n;
          prevs = λ p n n'. se.others p n' ∙ sd.prevs p ∙ sb.others p n ∙ sa.prevs p;
        },
      )

  -- With the previous span for the head, that stays the head.
  pub spanlist_pop_prev :
      (spans' : List Links) × (spanlist_pop spans (some prev) span ≡ some (spans', some prev))
      × Unlinked spans prev span next spans'
  unfolding spanlist_pop pop_linked pop_head Joined
  spanlist_pop_prev =
      let (l, at) = get_elem?-inside spans span i.has_span in
      let l_prev : l.prev ≡ some prev = sym (ap prev_in at) ∙ i.prev_span in
      let l_next : l.next ≡ some next = sym (ap next_in at) ∙ i.next_span in
      let (a, b, ea, eb, sa, sb) = joined in
      let b_size : length b ≡ length spans = sb.size ∙ sa.size in
      let (c, ec, sc) = set_next-NextSet b prev (some next) (omega (arith, b_size, i.has_prev)) in
      let (d, ed, sd) =
        set_next-NextSet c span (some span) (omega (arith, sc.size, b_size, i.has_span)) in
      let (e, ee, se) =
        set_prev-PrevSet d span (some span) (omega (arith, sd.size, sc.size, b_size, i.has_span)) in
      (
        e,
        rw (at, l_next, l_prev)
            (rw (not_same next span i.ne_next, ea, eb)
              (rw (not_same prev span i.ne_prev, ec) (rw (ed, ee) refl))),
        record {
          size = se.size ∙ sd.size ∙ sc.size ∙ b_size;
          next_prev = se.nexts prev ∙ sd.others prev (λ q. i.ne_prev (sym q)) ∙ sc.here;
          prev_next =
              se.others next (λ q. i.ne_next (sym q)) ∙ sd.prevs next ∙ sc.prevs next ∙ sb.here;
          next_span = se.nexts span ∙ sd.here;
          prev_span = se.here;
          nexts =
              λ p n n'. se.nexts p ∙ sd.others p n' ∙ sc.others p n ∙ sb.nexts p ∙ sa.others p n;
          prevs = λ p n n'. se.others p n' ∙ sd.prevs p ∙ sc.prevs p ∙ sb.others p n ∙ sa.prevs p;
        },
      )
