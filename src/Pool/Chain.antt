-- ===== src/Pool/Chain.antt =====
-- thread_pool.c: the nodes of the queue, linked in the order of their allocation.
use search_engine.Common.{
  ℕ, zero, suc, ◌<◌, ◌≤◌, ◌≡◌, refl, sym, ap, ◌∙◌, Option, none, some, List, [], ◌∷◌, ◌++◌, arith,
  length, get_elem?, set, get_elem?-set_ne, get_elem?-set_at,
}
use mathlib.Core.Option.{some-injective}
use search_engine.Pool.{Node}

module _ {J : Type 0} where
  abbrev pub node : J → Option ℕ → Node J
  node j p = record { job = j; next = p }

  -- From `p` the nodes of the jobs are linked, at growing places from `b` on; the last is at `t`,
  -- and has no successor.
  pub data Chain (nodes : List (Node J))
      : (b : ℕ) → (p : Option ℕ) → (t : ℕ) → List J → Type 0 where
    last :
        {b a : ℕ} {j : J}
        → b ≤ a
        → get_elem? nodes a ≡ some (node j none)
        → Chain nodes b (some a) a (j ∷ [])
    more :
        {b a t : ℕ} {p : Option ℕ} {j : J} {js : List J}
        → b ≤ a
        → get_elem? nodes a ≡ some (node j p)
        → Chain nodes (suc a) p t js
        → Chain nodes b (some a) t (j ∷ js)

  pub get_elem?-append_lt :
      (xs : List (Node J)) (n : Node J) (i : ℕ) {m : Node J}
      → get_elem? xs i ≡ some m
      → get_elem? (xs ++ n ∷ []) i ≡ some m
  get_elem?-append_lt [] n i e = cc
  get_elem?-append_lt (x ∷ xs) n zero e = e
  get_elem?-append_lt (x ∷ xs) n (suc i) e = get_elem?-append_lt xs n i e

  pub get_elem?-append_eq :
      (xs : List (Node J)) (n : Node J) → get_elem? (xs ++ n ∷ []) (length xs) ≡ some n
  get_elem?-append_eq [] n = refl
  get_elem?-append_eq (x ∷ xs) n = get_elem?-append_eq xs n

  pub get_elem?-lt :
      (xs : List (Node J)) (i : ℕ) {m : Node J} → get_elem? xs i ≡ some m → i < length xs
  get_elem?-lt [] i e = cc
  get_elem?-lt (x ∷ xs) zero e = omega arith
  get_elem?-lt (x ∷ xs) (suc i) e = omega (arith, get_elem?-lt xs i e)

  pub Chain-le :
      {nodes : List (Node J)} {b t : ℕ} {p : Option ℕ} {js : List J} → Chain nodes b p t js → b ≤ t
  Chain-le (last h e) = h
  Chain-le (more h e c) = omega (arith, Chain-le c)

  -- The last node of a chain.
  pub Chain-last :
      {nodes : List (Node J)} {b t : ℕ} {p : Option ℕ} {js : List J}
      → Chain nodes b p t js
      → (j : J) × (get_elem? nodes t ≡ some (node j none))
  Chain-last (last {j} h e) = (j, e)
  Chain-last (more h e c) = Chain-last c

  -- The store after a node has been allocated and the node at `t` linked to it.
  abbrev pub linked : List (Node J) → ℕ → J → J → List (Node J)
  linked nodes t j new = set (nodes ++ node new none ∷ []) t (node j (some (length nodes)))

  -- A chain that is linked to a new node goes on to it.
  pub Chain-snoc :
      {nodes : List (Node J)} {b t : ℕ} {p : Option ℕ} {js : List J} (jt new : J)
      → Chain nodes b p t js
      → get_elem? nodes t ≡ some (node jt none)
      → Chain (linked nodes t jt new) b p (length nodes) (js ++ new ∷ [])
  Chain-snoc {nodes} {b} {t} jt new (last {j} h e) e' =
      let n = length nodes in
      let here = get_elem?-lt nodes t e in
      let same : jt ≡ j =
        ap (λ (m : Node J). m.job) (some-injective (node jt none) (node j none) (sym e' ∙ e)) in
      more h
        (get_elem?-set_at (nodes ++ node new none ∷ []) t (node jt (some n))
            (get_elem?-append_lt nodes (node new none) t e)
          ∙ ap (λ i. some (node i (some n))) same)
        (last here (
          get_elem?-set_ne (nodes ++ node new none ∷ []) {i = t} {j = n} (node jt (some n))
            (omega arith)
          ∙ get_elem?-append_eq nodes (node new none)))
  Chain-snoc {nodes} {t} jt new (more {a} h e c) e' =
      let later = Chain-le c in
      more h
        (get_elem?-set_ne (nodes ++ node new none ∷ []) {i = t} {j = a}
            (node jt (some (length nodes))) (omega arith)
          ∙ get_elem?-append_lt nodes (node new none) a e)
        (Chain-snoc jt new c e')

  -- What follows the first node of a chain.
  abbrev pub After : List (Node J) → ℕ → Option ℕ → ℕ → List J → Type 0
  After nodes b p t [] = p ≡ none
  After nodes b p t (j ∷ js) = Chain nodes b p t (j ∷ js)

  pub Chain-first :
      {nodes : List (Node J)} {b t : ℕ} {p : Option ℕ} {j : J} {js : List J}
      → Chain nodes b p t (j ∷ js)
      → (a : ℕ) × (n : Option ℕ) × (p ≡ some a)
        × (get_elem? nodes a ≡ some (node j n))
        × After nodes (suc a) n t js
  Chain-first (last {a} h e) = (a, none, refl, e, refl)
  Chain-first (more {a} {p = n} h e c) = (a, n, refl, e, After-Chain c)
    where
      After-Chain :
          {nodes : List (Node J)} {b t : ℕ} {p : Option ℕ} {js : List J}
          → Chain nodes b p t js
          → After nodes b p t js
      After-Chain (last h e) = last h e
      After-Chain (more h e c) = more h e c

  pub Chain-weaken :
      {nodes : List (Node J)} {b t : ℕ} {p : Option ℕ} {js : List J}
      → Chain nodes b p t js
      → Chain nodes 0 p t js
  Chain-weaken (last h e) = last (omega arith) e
  Chain-weaken (more h e c) = more (omega arith) e c
