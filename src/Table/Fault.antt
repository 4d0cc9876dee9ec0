-- ===== src/Table/Fault.antt =====
-- helper.c: where `lookup` reads past the array.
use search_engine.Common.{
  ℕ, zero, suc, ◌<◌, ◌≤◌, ◌≡◌, ◌↔◌, inl, inr, refl, sym, ◌∙◌, Option, none, some, List, [], ◌∷◌,
  Bool, false, arith, Bool-cases, length, get_elem?, drop,
}
use search_engine.Table.{DynList, lookup}
use search_engine.Table.Slots.{IsValid}
use search_engine.Table.Find.{scan, lookup-scan}

-- Every cell from `index` on is taken by an item that is not the one that is looked for.
abbrev pub AllOthers {ℓ} : {A : Type ℓ} → (A → Bool) → List (Option A) → ℕ → Type ℓ
AllOthers {A} hit cells index =
    (i : ℕ)
    → index ≤ i
    → i < length cells
    → (a : A) × (get_elem? cells i ≡ some (some a)) × (hit a ≡ false)

module _ {ℓ} {A : Type ℓ} (hit : A → Bool) where
  scan-AllOthers :
      (cells : List (Option A)) (index : ℕ)
      → scan hit (drop index cells) ≡ none
      → AllOthers hit cells index
  unfolding scan
  scan-AllOthers [] index h i p q = absurd (omega arith)
  scan-AllOthers (none ∷ cells) zero h i p q = cc
  scan-AllOthers (some a ∷ cells) zero h zero p q = elim (Bool-cases (hit a)) [
    | inl e ↦ cc (rw e at h)
    | inr e ↦ (a, refl, e)
  ]
  scan-AllOthers (some a ∷ cells) zero h (suc i) p q = elim (Bool-cases (hit a)) [
    | inl e ↦ cc (rw e at h)
    | inr e ↦ scan-AllOthers cells zero (rw e at h) i (omega arith) (omega arith)
  ]
  scan-AllOthers (c ∷ cells) (suc index) h zero p q = absurd (omega arith)
  scan-AllOthers (c ∷ cells) (suc index) h (suc i) p q =
      scan-AllOthers cells index h i (omega arith) (omega arith)

  AllOthers-scan :
      (cells : List (Option A)) (index : ℕ)
      → AllOthers hit cells index
      → scan hit (drop index cells) ≡ none
  unfolding scan
  AllOthers-scan [] zero all = refl
  AllOthers-scan [] (suc index) all = refl
  AllOthers-scan (none ∷ cells) zero all = let (a, e, _) = all 0 (omega arith) (omega arith) in cc e
  AllOthers-scan (some a ∷ cells) zero all =
      let (b, e, m) = all 0 (omega arith) (omega arith) in
      let miss : hit a ≡ false = cc (e, m) in
      rw miss (AllOthers-scan cells zero (λ i p q. all (suc i) (omega arith) (omega arith)))
  AllOthers-scan (c ∷ cells) (suc index) all =
      AllOthers-scan cells index (λ i p q. all (suc i) (omega arith) (omega arith))

  -- In a list of the right size, `lookup` from a cell of the array reads past the array exactly when
  -- every cell from there to the end is taken by another item.
  pub lookup-AllOthers_iff :
      (l : DynList A) (index : ℕ)
      → IsValid l
      → index < l.phys_len
      → (lookup hit l index ≡ none) ↔ AllOthers hit l.dyn_list index
  lookup-AllOthers_iff l index v h =
      let same = lookup-scan hit l index v h in
      (
        λ e. scan-AllOthers l.dyn_list index (sym same ∙ e),
        λ all. same ∙ AllOthers-scan l.dyn_list index all,
      )
