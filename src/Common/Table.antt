-- ===== src/Common/Table.antt =====
-- Maps in which every record stands under its own identifier, once.
use mathlib.Core.Path.{◌≡◌, refl}
use mathlib.Core.Logic.{◌≢◌}
use mathlib.Core.Bool.{Bool}
use mathlib.Core.Option.{none, some}
use mathlib.Core.List.{List, [], ◌∷◌}
use native.Mathlib.Omega.{arith}
use galynx_api.Common.Eq.{HasEq}
use galynx_api.Common.Lists.{All}
use galynx_api.Common.HashMap.{
  Map, lookup, insert, remove, retain, values, lookup-insert, lookup-remove, lookup-retain-none,
  IsUnique,
}

module _ {K V : Type 0} ⦃e : HasEq K⦄ (id_of : V → K) where
  abbrev pub IsTable : Map K V → Type 0
  IsTable [] = Unit
  IsTable ((k, v) ∷ m) = (id_of v ≡ k) × (lookup k m ≡ none) × IsTable m

  pub IsTable-IsUnique : (m : Map K V) → IsTable m → IsUnique m
  IsTable-IsUnique [] h = tt
  IsTable-IsUnique ((k, v) ∷ m) h = (h.1, IsTable-IsUnique m h.2)

  pub IsTable-lookup : (k : K) {v : V} (m : Map K V) → IsTable m → lookup k m ≡ some v → id_of v ≡ k
  unfolding lookup
  IsTable-lookup k [] h found = ground arith
  IsTable-lookup k {v} ((j, w) ∷ m) h found =
      ground (arith, e.agrees j k, IsTable-lookup k {v = v} m h.2)

  pub insert-IsTable :
      (k : K) (v : V) (m : Map K V) → id_of v ≡ k → IsTable m → IsTable (insert k v m)
  unfolding insert lookup
  insert-IsTable k v [] same h = (same, refl, tt)
  insert-IsTable k v ((j, w) ∷ m) same h =
      ground
        (arith, e.agrees j k, e.agrees k j, insert-IsTable k v m same h.2, lookup-insert k j v m)

  pub remove-IsTable : (k : K) (m : Map K V) → IsTable m → IsTable (remove k m)
  unfolding remove
  remove-IsTable k [] h = tt
  remove-IsTable k ((j, w) ∷ m) h = ground (arith, remove-IsTable k m h.2, lookup-remove k j m)

  pub retain-IsTable : (p : K → V → Bool) (m : Map K V) → IsTable m → IsTable (retain p m)
  unfolding retain
  retain-IsTable p [] h = tt
  retain-IsTable p ((j, w) ∷ m) h = ground (arith, retain-IsTable p m h.2, lookup-retain-none p j m)

  values_without :
      (k : K) (m : Map K V) → IsTable m → lookup k m ≡ none → All (λ v. k ≢ id_of v) (values m)
  unfolding lookup
  values_without k [] h absent = tt
  values_without k ((j, w) ∷ m) h absent = ground (arith, e.agrees j k, values_without k m h.2)

  abbrev pub HasDistinctIds : List V → Type 0
  HasDistinctIds [] = Unit
  HasDistinctIds (v ∷ vs) = All (λ w. id_of v ≢ id_of w) vs × HasDistinctIds vs

  -- The records of a table have different identifiers.
  pub values-HasDistinctIds : (m : Map K V) → IsTable m → HasDistinctIds (values m)
  values-HasDistinctIds [] h = tt
  values-HasDistinctIds ((k, v) ∷ m) h =
      (rw h.0 (values_without k m h.2 h.1), values-HasDistinctIds m h.2)
