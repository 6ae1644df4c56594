-- ===== src/Common/HashMap.antt =====
-- `std::collections::HashMap` and `HashSet`: association lists with one entry for a key. The
-- order of the entries is one of those in which the table may iterate.
use mathlib.Core.Path.{◌≡◌, refl}
use mathlib.Core.Bool.{Bool, true, false}
use mathlib.Core.Option.{Option, none, some}
use mathlib.Core.List.{List, [], ◌∷◌}
use native.Mathlib.Omega.{arith}
use galynx_api.Common.Tests.{if◌then◌else◌}
use galynx_api.Common.Eq.{HasEq, ◌==◌}
use galynx_api.Common.Lists.{filter, All}

abbrev pub Map : Type 0 → Type 0 → Type 0
Map K V = List (K × V)

module _ {K V : Type 0} ⦃e : HasEq K⦄ where
  unfoldable pub lookup : K → Map K V → Option V
  lookup key [] = none
  lookup key ((stored, value) ∷ rest) = if stored == key then some value else lookup key rest

  -- The entry of the key is replaced in its place, or added behind the others.
  unfoldable pub insert : K → V → Map K V → Map K V
  insert key value [] = (key, value) ∷ []
  insert key value ((stored, old) ∷ rest) =
      if stored == key then (key, value) ∷ rest else (stored, old) ∷ insert key value rest

  unfoldable pub remove : K → Map K V → Map K V
  remove key [] = []
  remove key ((stored, old) ∷ rest) =
      if stored == key then remove key rest else (stored, old) ∷ remove key rest

  pub lookup-insert :
      (key other : K) (value : V) (m : Map K V)
      → lookup other (insert key value m) ≡ (if key == other then some value else lookup other m)
  unfolding lookup insert
  lookup-insert key other value [] = refl
  lookup-insert key other value ((stored, old) ∷ rest) = ground (
    arith,
    e.agrees key other,
    e.agrees stored key,
    e.agrees stored other,
    lookup-insert key other value rest,
  )

  pub lookup-remove :
      (k j : K) (m : Map K V) → lookup j (remove k m) ≡ (if k == j then none else lookup j m)
  unfolding lookup remove
  lookup-remove k j [] = ground arith
  lookup-remove k j ((i, w) ∷ m) =
      ground (arith, e.agrees k j, e.agrees i k, e.agrees i j, lookup-remove k j m)

  -- No key has two entries.
  abbrev pub IsUnique : Map K V → Type 0
  IsUnique [] = Unit
  IsUnique ((k, v) ∷ m) = (lookup k m ≡ none) × IsUnique m

  pub insert-IsUnique : (k : K) (v : V) (m : Map K V) → IsUnique m → IsUnique (insert k v m)
  unfolding lookup insert
  insert-IsUnique k v [] h = (refl, tt)
  insert-IsUnique k v ((j, w) ∷ m) h =
      ground (arith, e.agrees j k, e.agrees k j, insert-IsUnique k v m h.1, lookup-insert k j v m)

  pub remove-IsUnique : (k : K) (m : Map K V) → IsUnique m → IsUnique (remove k m)
  unfolding remove
  remove-IsUnique k [] h = tt
  remove-IsUnique k ((j, w) ∷ m) h = ground (arith, remove-IsUnique k m h.1, lookup-remove k j m)

module _ {K V : Type 0} where
  abbrev pub keys : Map K V → List K
  keys [] = []
  keys ((k, v) ∷ m) = k ∷ keys m

  abbrev pub values : Map K V → List V
  values [] = []
  values ((k, v) ∷ m) = v ∷ values m

  -- `HashMap::retain`
  unfoldable pub retain : (K → V → Bool) → Map K V → Map K V
  retain p [] = []
  retain p ((k, v) ∷ m) = if p k v then (k, v) ∷ retain p m else retain p m

module _ {K V : Type 0} ⦃e : HasEq K⦄ where
  pub lookup-retain-none :
      (p : K → V → Bool) (k : K) (m : Map K V) → lookup k m ≡ none → lookup k (retain p m) ≡ none
  unfolding lookup retain
  lookup-retain-none p k [] h = refl
  lookup-retain-none p k ((j, w) ∷ m) h = ground (arith, lookup-retain-none p k m)

  -- What `retain` keeps of the entry of one key.
  abbrev pub kept : (K → V → Bool) → K → Option V → Option V
  kept p k none = none
  kept p k (some v) = if p k v then some v else none

  pub lookup-retain :
      (p : K → V → Bool) (k : K) (m : Map K V)
      → IsUnique m
      → lookup k (retain p m) ≡ kept p k (lookup k m)
  unfolding lookup retain
  lookup-retain p k [] h = refl
  lookup-retain p k ((j, w) ∷ m) h =
      ground (arith, e.agrees j k, lookup-retain p k m h.1, lookup-retain-none p k m)

  pub retain-IsUnique : (p : K → V → Bool) (m : Map K V) → IsUnique m → IsUnique (retain p m)
  unfolding retain
  retain-IsUnique p [] h = tt
  retain-IsUnique p ((j, w) ∷ m) h =
      ground (arith, retain-IsUnique p m h.1, lookup-retain-none p j m)

  -- What holds of every stored value holds of one that is found.
  pub All-lookup :
      (P : V → Type 0) (k : K) {v : V} (m : Map K V) → All P (values m) → lookup k m ≡ some v → P v
  unfolding lookup
  All-lookup P k [] h e' = ground arith
  All-lookup P k {v} ((j, w) ∷ m) h e' = ground (arith, All-lookup P k {v = v} m h.1)

  pub All-insert :
      (P : V → Type 0) (k : K) (v : V) (m : Map K V)
      → P v
      → All P (values m)
      → All P (values (insert k v m))
  unfolding insert
  All-insert P k v [] p h = (p, tt)
  All-insert P k v ((j, w) ∷ m) p h = ground (arith, All-insert P k v m p h.1)

-- A set is the list of its members.
module _ {K : Type 0} ⦃e : HasEq K⦄ where
  unfoldable pub contains : K → List K → Bool
  contains k [] = false
  contains k (j ∷ s) = if j == k then true else contains k s

  unfoldable pub insert_member : K → List K → List K
  insert_member k s = if contains k s then s else k ∷ s

  unfoldable pub remove_member : K → List K → List K
  remove_member k s = filter (λ j. if j == k then false else true) s

  pub contains-insert_member :
      (k j : K) (s : List K)
      → contains j (insert_member k s) ≡ (if k == j then true else contains j s)
  unfolding contains insert_member
  contains-insert_member k j s = ground (arith, e.agrees k j)

  pub contains-filter :
      (p : K → Bool) (k : K) (s : List K)
      → contains k (filter p s) ≡ (if contains k s then p k else false)
  unfolding contains
  contains-filter p k [] = refl
  contains-filter p k (j ∷ s) = ground (arith, e.agrees j k, contains-filter p k s)

  pub contains-remove_member :
      (k j : K) (s : List K)
      → contains j (remove_member k s) ≡ (if k == j then false else contains j s)
  unfolding remove_member
  contains-remove_member k j s =
      ground (
        arith,
        contains-filter (λ i. if i == k then false else true) j s,
        e.agrees k j,
        e.agrees j k,
      )
