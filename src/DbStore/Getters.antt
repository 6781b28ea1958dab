-- ===== src/DbStore/Getters.antt =====
-- GetActiveNests, GetInactiveNests, GetNestAreas and GetAllNests of db_store/nests.go, on any answer.
use fletchling.Prelude.{
  ◌≡◌, refl, sym, ap, ◌∙◌, ◌⊎◌, inl, inr, Bool, true, false, Option, none, some, List, [], ◌∷◌,
  ◌++◌, map,
}
use mathlib.Core.List.{append_assoc, append-nil}
use fletchling.DbStore.Rows.{
  RowsError, reading_failed, closing_failed, scan_failed, query_failed, Cursor, Returned,
  append_rows, close_rows, get_nests, get_all_nests,
}
use fletchling.DbStore.Streaming.Pages.{IsAnswer, refused, whole, cut, unscanned}

module _ {ℓ} {Row : Type ℓ} where
  append_rows-map :
      (front : List Row) (tail : List (Option Row)) (rows : List Row)
      → append_rows (map some front ++ tail) rows ≡ append_rows tail (rows ++ front)
  unfolding append_rows
  append_rows-map [] tail rows = ap (append_rows tail) (sym (append-nil rows))
  append_rows-map (row ∷ front) tail rows =
      append_rows-map front tail (rows ++ row ∷ [])
      ∙ ap (append_rows tail) (append_assoc rows (row ∷ []) front)

  append_rows-all :
      (rows : List Row) → append_rows (map some rows) [] ≡ record { value = rows; error = none }
  append_rows-all rows =
      ap (λ l. append_rows l []) (sym (append-nil (map some rows)))
      ∙ append_rows-map rows [] []
      ∙ (unfold append_rows in refl)

  append_rows-bad :
      (front : List Row) (more : List (Option Row))
      → append_rows (map some front ++ none ∷ more) []
        ≡ record { value = front; error = some scan_failed }
  append_rows-bad front more = append_rows-map front (none ∷ more) [] ∙ (unfold append_rows in refl)

  -- All of the rows and no error, or an error and nothing.
  abbrev pub AllOrNothing : List Row → Returned (Option (List Row)) → Type ℓ
  AllOrNothing rows r =
      ((r.value ≡ some rows) × (r.error ≡ none))
      ⊎ ((r.value ≡ none) × (e : RowsError) × (r.error ≡ some e))

  closed-AllOrNothing :
      (rows : List Row) (c : Cursor Row) (broken fails : Bool)
      → c.scanned ≡ map some rows
      → c.broken ≡ broken
      → c.close_fails ≡ fails
      → AllOrNothing rows (get_nests (some c))
  unfolding get_nests close_rows
  closed-AllOrNothing rows c true fails scan broken fail = inr (
    rw (scan, append_rows-all rows, broken) refl,
    reading_failed,
    rw (scan, append_rows-all rows, broken) refl,
  )
  closed-AllOrNothing rows c false true scan broken fail = inr (
    rw (scan, append_rows-all rows, broken, fail) refl,
    closing_failed,
    rw (scan, append_rows-all rows, broken, fail) refl,
  )
  closed-AllOrNothing rows c false false scan broken fail = inl (
    rw (scan, append_rows-all rows, broken, fail) refl,
    rw (scan, append_rows-all rows, broken, fail) refl,
  )

  -- Whatever goes wrong with an answer, GetActiveNests returns all of the rows that were asked
  -- for and no error, or no rows and an error.
  pub get_nests-AllOrNothing :
      (rows : List Row) (answer : Option (Cursor Row))
      → IsAnswer rows answer
      → AllOrNothing rows (get_nests answer)
  unfolding get_nests close_rows
  get_nests-AllOrNothing rows none refused = inr (refl, query_failed, refl)
  get_nests-AllOrNothing rows (some c) (whole _ scan) =
      closed-AllOrNothing rows c c.broken c.close_fails scan refl refl
  get_nests-AllOrNothing rows (some c) (cut _ front back split scan broken) = inr (
    rw (scan, append_rows-all front, broken) refl,
    reading_failed,
    rw (scan, append_rows-all front, broken) refl,
  )
  get_nests-AllOrNothing rows (some c) (unscanned _ front back more split scan) = inr (
    rw (scan, append_rows-bad front more) refl,
    scan_failed,
    rw (scan, append_rows-bad front more) refl,
  )

  -- If reading the rows breaks off after some of them and closing does not fail, then GetAllNests
  -- returns those rows and no error, where GetActiveNests returns no rows and the error.
  pub get_all_nests_cut :
      (front : List Row) (c : Cursor Row)
      → c.scanned ≡ map some front
      → c.broken ≡ true
      → c.close_fails ≡ false
      → (get_all_nests (some c) ≡ record { value = some front; error = none })
        × (get_nests (some c) ≡ record { value = none; error = some reading_failed })
  unfolding get_all_nests get_nests close_rows
  get_all_nests_cut front c scan broken fail =
      (rw (scan, append_rows-all front, fail) refl, rw (scan, append_rows-all front, broken) refl)
