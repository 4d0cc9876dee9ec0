-- ===== src/Tests/Tables.antt =====
-- The lists of pointers and the lists of lines, at concrete inputs.
use search_engine.Common.{
  ℕ, ◌<◌, ◌≤◌, ◌≡◌, ◌⊎◌, ◌↔◌, refl, none, some, [], ◌∷◌, Bool, arith, ◌==◌, get_elem?, replicate,
}
use search_engine.Common.Int.{pos}
use search_engine.Table.{DynList, insert, lookup_from, lookup, disperse_keys}
use search_engine.Table.Slots.{IsValid}
use search_engine.Table.Find.{lookup-insert}
use search_engine.Table.Grow.{StandsFrom, lookup-disperse_keys}
use search_engine.Table.Row.{IsRow, insert-IsRow}
use search_engine.Table.Fault.{AllOthers, lookup-AllOthers_iff}
use search_engine.Postings.{Link, add_line}
use search_engine.Postings.Lines.{AllLinks, Recorded, add_line-Recorded}
use search_engine.Tests.Memory.{extended, zeroed, zeroed-IsLineMemory}

-- Four cells, of which two are taken.
abbrev half_full : DynList ℕ
half_full = record { last_index = 2; phys_len = 4; dyn_list = none ∷ some 5 ∷ some 6 ∷ none ∷ [] }

half_full-IsValid : IsValid half_full
half_full-IsValid = record { sized = refl }

lookup-insert_example :
    (l' : DynList ℕ) × (insert (extended none) half_full 7 1 ≡ some (pos 1, l'))
    × IsValid l'
    × (l'.phys_len ≡ 4)
    × ((i a : ℕ)
        → get_elem? l'.dyn_list i ≡ some (some a)
        → (a ≡ 7) ⊎ (get_elem? half_full.dyn_list i ≡ some (some a)))
    × (lookup (λ a. a == 7) l' 1 ≡ some (some 7))
    × ((other : ℕ → Bool) (j a : ℕ)
        → lookup other half_full j ≡ some (some a)
        → lookup other l' j ≡ some (some a))
unfolding lookup lookup_from
lookup-insert_example =
    lookup-insert (λ a. a == 7) 7 refl (extended none) half_full 1 half_full-IsValid (omega arith)
      (omega arith) refl

-- Two cells, both taken.
abbrev two_full : DynList ℕ
two_full = record { last_index = 2; phys_len = 2; dyn_list = some 5 ∷ some 6 ∷ [] }

-- The same cells and one more item after the array has been doubled.
abbrev doubled : DynList ℕ
doubled = record { last_index = 3; phys_len = 4; dyn_list = some 5 ∷ some 6 ∷ some 7 ∷ none ∷ [] }

doubled-IsValid : IsValid doubled
doubled-IsValid = record { sized = refl }

two_full-IsValid : IsValid two_full
two_full-IsValid = record { sized = refl }

lookup-disperse_keys_example :
    (l' : DynList ℕ) × (disperse_keys (λ a. a) doubled ≡ some l')
    × IsValid l'
    × (l'.phys_len ≡ 4)
    × ((hit : ℕ → Bool) (j a : ℕ)
        → 2 ≤ j
        → j < 4
        → lookup hit l' j ≡ some (some a)
        → StandsFrom 2 doubled.dyn_list a)
lookup-disperse_keys_example = lookup-disperse_keys (λ a. a) doubled doubled-IsValid

lookup-AllOthers_iff_example :
    (lookup (λ a. a == 7) two_full 1 ≡ none) ↔ AllOthers (λ a. a == 7) two_full.dyn_list 1
lookup-AllOthers_iff_example =
    lookup-AllOthers_iff (λ a. a == 7) two_full 1 two_full-IsValid (omega arith)

-- A row of three names in an array of four.
abbrev three_names : DynList ℕ
three_names = record {
  last_index = 2;
  phys_len = 4;
  dyn_list = some 5 ∷ some 6 ∷ some 7 ∷ none ∷ [];
}

three_names-IsRow : IsRow (5 ∷ 6 ∷ 7 ∷ []) three_names
three_names-IsRow = record { spare = 1; cells = refl; size = refl; last = refl; even = refl }

insert-IsRow_example :
    (l' : DynList ℕ) × (insert (extended none) three_names 8 2 ≡ some (pos 1, l'))
    × IsRow (5 ∷ 6 ∷ 7 ∷ 8 ∷ []) l'
    × (l'.phys_len ≡ 4)
insert-IsRow_example =
    insert-IsRow (extended none) (5 ∷ 6 ∷ 7 ∷ []) three_names 8 three_names-IsRow (omega arith)

-- A document with one line.
abbrev one_line : Link
one_line = record { val = 3; list = 9 ∷ replicate 9 0; list_len = 10; last_index = 1 }

one_line-AllLinks : AllLinks 5 (one_line ∷ [])
one_line-AllLinks =
    (record { sized = refl; filled = omega arith; small = omega arith }, omega arith, tt)

add_line-Recorded_example : Recorded 5 (one_line ∷ []) 3 12 (add_line zeroed (one_line ∷ []) 3 12)
add_line-Recorded_example =
    add_line-Recorded zeroed-IsLineMemory 5 3 12 (omega arith) (one_line ∷ []) one_line-AllLinks
