-- ===== src/Index/Agree.antt =====
-- server.c: lookups in a table whose pointers all lead to words.
use search_engine.Common.{
  ℕ, zero, suc, ◌<◌, ◌≡◌, refl, sym, ap, ◌∙◌, Option, none, some, List, [], ◌∷◌, ◌++◌, Bool, arith,
  length, get_elem?, set, drop, get_elem?-set_ne, get_elem?-set_inv, get_elem?-set_at,
}
use native.Mathlib.Decide.{ℕ_discrete}
use mathlib.Core.Option.{some-injective}
use search_engine.Table
use search_engine.Table.{DynList}
use search_engine.Table.Slots.{IsValid, filled}
use search_engine.Table.Find.{scan, lookup-scan}
use search_engine.Index.{Word, word_hit}

-- Every pointer in the table leads to one of `n` words.
abbrev pub Points : ℕ → DynList ℕ → Type 0
Points n table = (i item : ℕ) → get_elem? table.dyn_list i ≡ some (some item) → item < n

module _ {A : Type 0} (hit hit' : A → Bool) where
  scan-agree :
      (cells : List (Option A)) (j : ℕ)
      → ((i : ℕ) (a : A) → get_elem? cells i ≡ some (some a) → hit a ≡ hit' a)
      → scan hit (drop j cells) ≡ scan hit' (drop j cells)
  unfolding scan
  scan-agree [] zero same = refl
  scan-agree [] (suc j) same = refl
  scan-agree (none ∷ cells) zero same = refl
  scan-agree (some a ∷ cells) zero same =
      ground (arith, same 0 a refl, scan-agree cells 0 (λ i. same (suc i)))
  scan-agree (c ∷ cells) (suc j) same = scan-agree cells j (λ i. same (suc i))

  -- Two comparisons that agree on the items of a list find the same in it.
  pub lookup-agree :
      (l : DynList A) (j : ℕ)
      → IsValid l
      → j < l.phys_len
      → ((i : ℕ) (a : A) → get_elem? l.dyn_list i ≡ some (some a) → hit a ≡ hit' a)
      → Table.lookup hit l j ≡ Table.lookup hit' l j
  lookup-agree l j v h same =
      lookup-scan hit l j v h ∙ scan-agree l.dyn_list j same ∙ sym (lookup-scan hit' l j v h)

filled-Points : (n at : ℕ) (table : DynList ℕ) → Points n table → Points (suc n) (filled table at n)
filled-Points n at table points i item e = elim (ℕ_discrete at i) [
  | yes p ↦
      let same =
        get_elem?-set_inv table.dyn_list at (some n)
          (ap (get_elem? (filled table at n).dyn_list) p ∙ e) in
      omega (arith, some-injective item n same)
  | no p ↦ omega (arith, points i item (sym (get_elem?-set_ne table.dyn_list (some n) p) ∙ e))
]

pub get_elem?-append_lt :
    (ws : List Word) (w : Word) (i : ℕ)
    → i < length ws
    → get_elem? (ws ++ w ∷ []) i ≡ get_elem? ws i
get_elem?-append_lt [] w i h = elim h [ ]
get_elem?-append_lt (x ∷ ws) w zero h = refl
get_elem?-append_lt (x ∷ ws) w (suc i) h = get_elem?-append_lt ws w i (omega arith)

pub get_elem?-append_eq :
    (ws : List Word) (w : Word) → get_elem? (ws ++ w ∷ []) (length ws) ≡ some w
get_elem?-append_eq [] w = refl
get_elem?-append_eq (x ∷ ws) w = get_elem?-append_eq ws w

-- A word that is added leaves the comparisons with the other words.
pub word_hit-append :
    (ws : List Word) (w : Word) (str : List ℕ) (item : ℕ)
    → item < length ws
    → word_hit ws str item ≡ word_hit (ws ++ w ∷ []) str item
unfolding word_hit
word_hit-append ws w str item h = rw (get_elem?-append_lt ws w item h, word_hit)

-- A word whose list of documents changes compares as before.
pub word_hit-set :
    (ws : List Word) (w w' : Word) (str : List ℕ) (item other : ℕ)
    → get_elem? ws item ≡ some w
    → w'.str ≡ w.str
    → word_hit (set ws item w') str other ≡ word_hit ws str other
unfolding word_hit
word_hit-set ws w w' str item other e same = elim (ℕ_discrete item other) [
  | yes p ↦ rw (← p, get_elem?-set_at ws item w' e, e, word_hit) (rw same)
  | no p ↦ rw (get_elem?-set_ne ws w' p, word_hit)
]
