-- ===== src/DbStore/Rows.antt =====
-- Reading the rows of a query, in db_store/nests.go and db_store/util.go. The answer of the database
-- is a parameter: the query may fail, a row may not scan, reading may end early with an error, and
-- closing may fail.
use fletchling.Prelude.{
  ℕ, suc, ℤ, pos, Bool, false, Option, none, some, List, [], ◌∷◌, ◌++◌, if◌then◌else◌, ◌≡◌, ap,
}

pub data RowsError : Type 0 where
  query_failed scan_failed reading_failed closing_failed stopped : RowsError

-- `scanned` has `none` for a row that does not scan; `broken` is that rows.Err() is not nil.
pub record Cursor {ℓ} (Row : Type ℓ) : Type ℓ where
  pub scanned : List (Option Row)
  pub broken : Bool
  pub close_fails : Bool

-- A result and an error, as Go returns both.
pub record Returned {ℓ} (A : Type ℓ) : Type ℓ where
  pub value : A
  pub error : Option RowsError

-- An error from before is kept.
unfoldable pub close_rows : Bool → Option RowsError → Option RowsError
close_rows fails (some e) = some e
close_rows fails none = if fails then some closing_failed else none

abbrev pub reading_error : Bool → Option RowsError
reading_error broken = if broken then some reading_failed else none

abbrev pub or_error : Option RowsError → Option RowsError → Option RowsError
or_error none e = e
or_error (some e) _ = some e

module _ {ℓ} {Row : Type ℓ} where
  -- What is appended, and whether a row did not scan.
  unfoldable pub append_rows : List (Option Row) → List Row → Returned (List Row)
  append_rows [] rows = record { value = rows; error = none }
  append_rows (none ∷ more) rows = record { value = rows; error = some scan_failed }
  append_rows (some row ∷ more) rows = append_rows more (rows ++ row ∷ [])

  abbrev nil_on_error : Option RowsError → List Row → Option (List Row)
  nil_on_error none rows = some rows
  nil_on_error (some e) rows = none

  -- The error of reading is not looked at, and rows that were read stay in the result.
  unfoldable pub get_all_nests : Option (Cursor Row) → Returned (Option (List Row))
  unfolding append_rows close_rows
  get_all_nests none = record { value = none; error = some query_failed }
  get_all_nests (some c) =
      let read = append_rows c.scanned [] in
      record { value = some read.value; error = close_rows c.close_fails read.error }

  -- GetActiveNests, GetInactiveNests and GetNestAreas, with their queries as the answer.
  unfoldable pub get_nests : Option (Cursor Row) → Returned (Option (List Row))
  unfolding append_rows close_rows
  get_nests none = record { value = none; error = some query_failed }
  get_nests (some c) =
      let read = append_rows c.scanned [] in
      let error = close_rows c.close_fails (or_error read.error (reading_error c.broken)) in
      record { value = nil_on_error error read.value; error = error }

  -- QueryRowx of one row: none if there is no such row.
  unfoldable pub get_nest_by_id : Option (Cursor Row) → Returned (Option Row)
  get_nest_by_id none = record { value = none; error = some query_failed }
  get_nest_by_id (some c) = elim c.scanned [
    | [] ↦ record { value = none; error = reading_error c.broken }
    | first ∷ _ ↦ elim first [
      | none ↦ record { value = none; error = some scan_failed }
      | some row ↦ record { value = some row; error = reading_error false }
    ]
  ]

-- The rows seen, the id of the last one, and what the callback made of them.
pub record Batch {ℓ} (S : Type ℓ) : Type ℓ where
  pub num_rows : ℕ
  pub last_id : ℤ
  pub result : S
  pub error : Option RowsError

-- A row is counted before the callback sees it, and its error ends the loop.
module _ {ℓ} {Row S : Type ℓ} (id_of : Row → ℤ) (fn : Row → S → S × Option RowsError) where
  abbrev pub seen : Row → Batch S → S × Option RowsError → Batch S
  seen row b (result, error) = record {
    num_rows = suc b.num_rows;
    last_id = id_of row;
    result = result;
    error = error;
  }

  abbrev pub go_on : (Batch S → Batch S) → Batch S → Batch S
  go_on rest b = elim b.error [ none ↦ rest b | some e ↦ b ]

  unfoldable pub iterate_rows : List (Option Row) → Batch S → Batch S
  iterate_rows [] b = b
  iterate_rows (none ∷ more) b = record b { error = some scan_failed }
  iterate_rows (some row ∷ more) b = go_on (iterate_rows more) (seen row b (fn row b.result))

  pub iterate_rows-some :
      (row : Row) (more : List (Option Row)) (b : Batch S) (r : S × Option RowsError)
      → fn row b.result ≡ r
      → iterate_rows (some row ∷ more) b ≡ go_on (iterate_rows more) (seen row b r)
  unfolding iterate_rows
  iterate_rows-some row more b r e = ap (λ r'. go_on (iterate_rows more) (seen row b r')) e

  abbrev pub empty_batch : S → Batch S
  empty_batch s = record { num_rows = 0; last_id = pos 0; result = s; error = none }

  unfoldable pub iterate_nests_batch : Option (Cursor Row) → S → Batch S
  unfolding iterate_rows close_rows
  iterate_nests_batch none s = record (empty_batch s) { error = some query_failed }
  iterate_nests_batch (some c) s =
      let b = iterate_rows c.scanned (empty_batch s) in
      record b { error = close_rows c.close_fails (or_error b.error (reading_error c.broken)) }
