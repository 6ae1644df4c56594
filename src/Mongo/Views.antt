-- ===== src/Mongo/Views.antt =====
-- What is read under an identifier after a write: of the collection that is written, and of the
-- others.
use mathlib.Core.Path.{◌≡◌, refl, ap, ◌∙◌}
use mathlib.Core.Logic.{◌≢◌, inl, inr}
use mathlib.Core.Bool.{true}
use mathlib.Core.Option.{Option, none, some}
use mathlib.Core.List.{◌∷◌}
use native.Mathlib.Omega.{arith}
use galynx_api.Common.{
  ◌==◌, ==_refl, nat_eq, text_eq, eqb_iff, text_beq_iff, lookup, insert, remove, lookup-insert,
  lookup-remove, Map, if◌then◌else◌, Bool-cases,
}
use galynx_api.Text.{Str, text}
use galynx_api.Storage.{Uuid}
use galynx_api.Mongo.{
  Driver, IsLawful, IsPlain, IsId, Collection, Fields, by_id, has_distinct_keys, string,
}
use galynx_api.Mongo.Tables.{replace, found_or}

module _ (m : Driver) (laws : IsLawful m) where
  -- Identifiers are equal where their texts are.
  pub show_uuid_beq : (a b : Uuid) → IsId a → IsId b → (m.show_uuid a == m.show_uuid b) ≡ (a == b)
  show_uuid_beq a b ha hb = ground (
    arith,
    text_beq_iff (m.show_uuid a) (m.show_uuid b),
    eqb_iff a b,
    laws.parse_str-show_uuid a ha,
    laws.parse_str-show_uuid b hb,
  )

  module _ (c : Collection) (plain : IsPlain c) (k : Str) (db : m.Database) where
    pub replace-apart :
        (d : Collection) (j : Str) (document : Fields)
        → c ≢ d
        → m.find_one c (by_id k) (replace m d j document db) ≡ m.find_one c (by_id k) db
    unfolding replace
    replace-apart d j document apart =
        laws.insert_one-apart c d k document (m.delete_one d (by_id j) db) plain apart
        ∙ laws.delete_one-apart c d k (by_id j) db plain apart

    deleted : (j : Str) → m.find_one c (by_id j) (m.delete_one c (by_id j) db) ≡ some none
    deleted j =
        laws.find_one-delete_one c j j db plain
        ∙ ap (λ b. if b then some none else m.find_one c (by_id j) db) (==_refl j)

    pub find_one-replace :
        (j : Str) (fields : Fields)
        → has_distinct_keys ((text "_id", string j) ∷ fields) ≡ true
        → m.find_one c (by_id k) (replace m c j ((text "_id", string j) ∷ fields) db) ≡ (
            if j == k
            then some (some (m.doc ((text "_id", string j) ∷ fields)))
            else m.find_one c (by_id k) db)
    unfolding replace
    find_one-replace j fields keys =
        laws.find_one-insert_one c j k fields (m.delete_one c (by_id j) db) plain keys (deleted j)
        ∙ ground (arith, laws.find_one-delete_one c j k db plain)

    module _ {A : Type 0} (read : m.Document → Option A) where
      -- Both parts of the storage are written alike.
      pub found_or-replace :
          (j : Str) (fields : Fields) (a : A) (in_memory : Option A)
          → has_distinct_keys ((text "_id", string j) ∷ fields) ≡ true
          → read (m.doc ((text "_id", string j) ∷ fields)) ≡ some a
          → found_or m read
              (if j == k then some a else in_memory)
              (m.find_one c (by_id k) (replace m c j ((text "_id", string j) ∷ fields) db))
            ≡ (if j == k then some a else found_or m read in_memory (m.find_one c (by_id k) db))
      found_or-replace j fields a in_memory keys h =
          rw (find_one-replace j fields keys)
            (elim (Bool-cases (j == k)) [ inl same ↦ rw same h | inr other ↦ rw other refl ])

      pub found_or-delete :
          (j : Str) (in_memory : Option A)
          → found_or m read
              (if j == k then none else in_memory)
              (m.find_one c (by_id k) (m.delete_one c (by_id j) db))
            ≡ (if j == k then none else found_or m read in_memory (m.find_one c (by_id k) db))
      found_or-delete j in_memory =
          rw (laws.find_one-delete_one c j k db plain)
            (elim (Bool-cases (j == k)) [ inl same ↦ rw same refl | inr other ↦ rw other refl ])

-- What is read of a collection, and of the table of the memory behind it, is what a table has.
module _ (m : Driver) {R : Type 0} (c : Collection) (read : m.Document → Option R) where
  abbrev pub Sees : Map Uuid R → m.Database → Map Uuid R → Type 0
  Sees in_memory db table =
      (k : Uuid)
      → IsId k
      → found_or m read (lookup k in_memory) (m.find_one c (by_id (m.show_uuid k)) db)
        ≡ lookup k table

  module _ (laws : IsLawful m) (plain : IsPlain c) (in_memory table : Map Uuid R) (db : m.Database)
      (sees : Sees in_memory db table) where
    pub replace-Sees :
        (j : Uuid) (fields : Fields) (r : R)
        → IsId j
        → has_distinct_keys ((text "_id", string (m.show_uuid j)) ∷ fields) ≡ true
        → read (m.doc ((text "_id", string (m.show_uuid j)) ∷ fields)) ≡ some r
        → Sees
            (insert j r in_memory)
            (replace m c (m.show_uuid j) ((text "_id", string (m.show_uuid j)) ∷ fields) db)
            (insert j r table)
    replace-Sees j fields r hj keys h k hk =
        rw
          (
            lookup-insert j k r in_memory,
            lookup-insert j k r table,
            ← show_uuid_beq m laws j k hj hk,
          )
          (found_or-replace m laws c plain (m.show_uuid k) db read (m.show_uuid j) fields r
              (lookup k in_memory) keys h
            ∙ ap (λ o. if m.show_uuid j == m.show_uuid k then some r else o) (sees k hk))

    pub delete-Sees :
        (j : Uuid)
        → IsId j
        → Sees (remove j in_memory) (m.delete_one c (by_id (m.show_uuid j)) db) (remove j table)
    delete-Sees j hj k hk =
        rw (lookup-remove j k in_memory, lookup-remove j k table, ← show_uuid_beq m laws j k hj hk)
          (found_or-delete m laws c plain (m.show_uuid k) db read (m.show_uuid j)
              (lookup k in_memory)
            ∙ ap (λ o. if m.show_uuid j == m.show_uuid k then none else o) (sees k hk))

  pub apart-Sees :
      (in_memory table : Map Uuid R) (db db' : m.Database)
      → Sees in_memory db table
      → ((k : Str) → m.find_one c (by_id k) db' ≡ m.find_one c (by_id k) db)
      → Sees in_memory db' table
  apart-Sees in_memory table db db' sees h k hk =
      ap (found_or m read _) (h (m.show_uuid k)) ∙ sees k hk
