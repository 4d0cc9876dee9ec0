-- ===== src/Common/Items.antt =====
-- Lists all of whose items have a property, and lists without a repetition.
use Prim.Native.Nat.{ℕ, zero, suc, ◌<◌}
use mathlib.Core.Path.{◌≡◌, refl}
use mathlib.Core.Logic.{◌≢◌}
use mathlib.Core.Option.{some}
use mathlib.Core.List.{List, [], ◌∷◌, ◌++◌}
use native.Mathlib.Omega.{arith}
use search_engine.Common.Lists.{length, get_elem?, drop}

-- By recursion, so that a proof is a tuple.
abbrev pub All {ℓ κ} : {A : Type ℓ} → (A → Type κ) → List A → Type κ
All P [] = Unit
All P (x ∷ xs) = P x × All P xs

pub All-map {ℓ κ κ'} :
    {A : Type ℓ} (P : A → Type κ) (Q : A → Type κ') (xs : List A)
    → ((x : A) → P x → Q x)
    → All P xs
    → All Q xs
All-map P Q [] f all = tt
All-map P Q (x ∷ xs) f (p, all) = (f x p, All-map P Q xs f all)

pub All-snoc {ℓ κ} :
    {A : Type ℓ} (P : A → Type κ) (xs : List A) (a : A) → All P xs → P a → All P (xs ++ a ∷ [])
All-snoc P [] a all p = (p, tt)
All-snoc P (x ∷ xs) a (q, all) p = (q, All-snoc P xs a all p)

abbrev pub Distinct {ℓ} : {A : Type ℓ} → List A → Type ℓ
Distinct [] = Unit
Distinct (x ∷ xs) = All (λ y. x ≢ y) xs × Distinct xs

pub Distinct-snoc {ℓ} :
    {A : Type ℓ} (xs : List A) (a : A) → Distinct xs → All (λ x. x ≢ a) xs → Distinct (xs ++ a ∷ [])
Distinct-snoc [] a distinct others = (tt, tt)
Distinct-snoc (x ∷ xs) a (first, distinct) (ne, others) =
    (All-snoc (λ y. x ≢ y) xs a first ne, Distinct-snoc xs a distinct others)

pub get_elem?-inside {ℓ} :
    {A : Type ℓ} (xs : List A) (i : ℕ) → i < length xs → (x : A) × (get_elem? xs i ≡ some x)
get_elem?-inside [] i h = absurd (omega (arith, h))
get_elem?-inside (x ∷ xs) zero h = (x, refl)
get_elem?-inside (x ∷ xs) (suc i) h = get_elem?-inside xs i (omega (arith, h))

-- The first of the items that are left.
pub get_elem?-drop {ℓ} :
    {A : Type ℓ} (i : ℕ) (xs : List A) {x : A} {rest : List A}
    → drop i xs ≡ x ∷ rest
    → (get_elem? xs i ≡ some x) × (drop (suc i) xs ≡ rest)
get_elem?-drop zero [] e = cc e
get_elem?-drop zero (y ∷ xs) e = (cc e, cc e)
get_elem?-drop (suc i) [] e = cc e
get_elem?-drop (suc i) (y ∷ xs) e = get_elem?-drop i xs e

pub get_elem?-lt {ℓ} :
    {A : Type ℓ} (xs : List A) (i : ℕ) {x : A} → get_elem? xs i ≡ some x → i < length xs
get_elem?-lt [] i e = cc e
get_elem?-lt (y ∷ xs) zero e = omega arith
get_elem?-lt (y ∷ xs) (suc i) e = omega (arith, get_elem?-lt xs i e)
