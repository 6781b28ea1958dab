-- ===== src/DbStore/Batches.antt =====
-- GetNestsWithoutPolygon of db_store/nests.go: nests by their ids, in queries of at most 500 of them.
pub mod Found
use fletchling.Prelude.{
  ℕ, zero, suc, ◌-◌, ℤ, pos, int_eq, Bool, true, Option, none, some, List, [], ◌∷◌, length, take,
  drop, ltb, eqb, if◌then◌else◌, Outcome, done, panic, bad_index,
}
use fletchling.Prelude.Map.{Map, insert}
use fletchling.DbStore.Rows.{RowsError, Cursor, Batch, iterate_nests_batch}

-- `placeholders` is how many `nest_id=?` the query has that was built last.
pub record Lookups {ℓ} (Row : Type ℓ) : Type ℓ where
  pub nests : Option (Map ℤ Row)
  pub error : Option RowsError

module _ {ℓ} {Row : Type ℓ} (batch_size : ℕ) (id_of : Row → ℤ)
    (ask : ℕ → List ℤ → Option (Cursor Row)) where
  abbrev pub store : Row → Map ℤ Row → Map ℤ Row × Option RowsError
  store row nests = (insert (id_of row) row nests, none)

  abbrev pub min : ℕ → ℕ → ℕ
  min a b = if ltb b a then b else a

  abbrev pub continue_or_fail :
      (Map ℤ Row → Option (Lookups Row)) → Batch (Map ℤ Row) → Option (Lookups Row)
  continue_or_fail next b = elim b.error [
    | some e ↦ some (record { nests = none; error = some e })
    | none ↦ next b.result
  ]

  -- The loop, with the rest of the ids; none if the fuel runs out. The query is built again if the
  -- batch has another length than the first one.
  unfoldable pub lookup_loop : ℕ → ℕ → ℕ → List ℤ → Map ℤ Row → Option (Lookups Row)
  unfolding iterate_nests_batch
  lookup_loop fuel where_size placeholders [] nests =
      some (record { nests = some nests; error = none })
  lookup_loop zero where_size placeholders (id ∷ ids) nests = none
  lookup_loop (suc fuel) where_size placeholders (id ∷ ids) nests =
      let this_length = min (length (id ∷ ids)) batch_size in
      let query = if eqb this_length where_size then placeholders else this_length in
      let next = λ (found : Map ℤ Row).
        lookup_loop fuel where_size query (drop this_length (id ∷ ids)) found in
      continue_or_fail next
        (iterate_nests_batch id_of store (ask query (take this_length (id ∷ ids))) nests)

unfoldable pub get_nests_without_polygon {ℓ} :
    {Row : Type ℓ}
    → (Row → ℤ)
    → (ℕ → List ℤ → Option (Cursor Row))
    → List ℤ
    → ℕ
    → Option (Lookups Row)
unfolding lookup_loop
get_nests_without_polygon id_of ask [] fuel = some (record { nests = none; error = none })
get_nests_without_polygon id_of ask (id ∷ ids) fuel =
    let where_size = min 500 id_of ask (length (id ∷ ids)) 500 in
    lookup_loop 500 id_of ask fuel where_size where_size (id ∷ ids) []
