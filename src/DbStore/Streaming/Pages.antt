-- ===== src/DbStore/Streaming/Pages.antt =====
-- A table in the order of its ids, its pages, and what an answer to a query may be.
use fletchling.Prelude.{
  ℕ, ◌≡◌, refl, ap, ℤ, Bool, true, false, Option, none, some, List, [], ◌∷◌, ◌++◌, map, take, All,
  ltb_ℤ, if◌then◌else◌, arith,
}
use fletchling.DbStore.Rows.{Cursor}

module _ {ℓ} {Row : Type ℓ} (id_of : Row → ℤ) where
  abbrev pub is_after : Option ℤ → Row → Bool
  is_after none row = true
  is_after (some last) row = ltb_ℤ last (id_of row)

  -- `WHERE nest_id > last`.
  abbrev pub rows_after : Option ℤ → List Row → List Row
  rows_after after [] = []
  rows_after after (row ∷ rows) =
      if is_after after row then row ∷ rows_after after rows else rows_after after rows

  -- `ORDER BY nest_id ASC`: the ids are distinct.
  abbrev pub Ascending : List Row → Type 0
  Ascending [] = Unit
  Ascending (row ∷ rows) =
      All (λ other. ltb_ℤ (id_of row) (id_of other) ≡ true) rows × Ascending rows

  abbrev pub page : ℕ → List Row → Option ℤ → List Row
  page limit table after = take limit (rows_after after table)

  rows_after-all :
      (last : ℤ) (rows : List Row)
      → All (λ row. ltb_ℤ last (id_of row) ≡ true) rows
      → rows_after (some last) rows ≡ rows
  rows_after-all last [] h = refl
  rows_after-all last (row ∷ rows) h = rw h.0 (ap (◌∷◌ row) (rows_after-all last rows h.1))

  All-at :
      (x : ℤ) (front back : List Row) (row : Row)
      → All (λ other. ltb_ℤ x (id_of other) ≡ true) (front ++ row ∷ back)
      → ltb_ℤ x (id_of row) ≡ true
  All-at x [] back row h = h.0
  All-at x (other ∷ front) back row h = All-at x front back row h.1

  -- What comes after a row of the table is what stands behind it.
  pub rows_after-row :
      (front back : List Row) (row : Row)
      → Ascending (front ++ row ∷ back)
      → rows_after (some (id_of row)) (front ++ row ∷ back) ≡ back
  rows_after-row [] back row h =
      let same : ltb_ℤ (id_of row) (id_of row) ≡ false = ground arith in
      rw same (rows_after-all (id_of row) back h.0)
  rows_after-row (other ∷ front) back row h =
      let before = All-at (id_of other) front back row h.0 in
      let not_after : ltb_ℤ (id_of row) (id_of other) ≡ false = ground (arith, before) in
      rw not_after (rows_after-row front back row h.1)

  pub rows_after-none : (rows : List Row) → rows_after none rows ≡ rows
  rows_after-none [] = refl
  rows_after-none (row ∷ rows) = ap (◌∷◌ row) (rows_after-none rows)

-- An answer has the rows that were asked for, unless it tells of an error: then it has some of the
-- first ones.
pub data IsAnswer {ℓ} {Row : Type ℓ} (rows : List Row) : Option (Cursor Row) → Type ℓ where
  refused : IsAnswer rows none
  whole : (c : Cursor Row) → c.scanned ≡ map some rows → IsAnswer rows (some c)
  cut :
      (c : Cursor Row) (front back : List Row)
      → rows ≡ front ++ back
      → c.scanned ≡ map some front
      → c.broken ≡ true
      → IsAnswer rows (some c)
  unscanned :
      (c : Cursor Row) (front back : List Row) (more : List (Option Row))
      → rows ≡ front ++ back
      → c.scanned ≡ map some front ++ none ∷ more
      → IsAnswer rows (some c)

-- An answer with no error.
abbrev pub good_answer {ℓ} : {Row : Type ℓ} → List Row → Option (Cursor Row)
good_answer rows = some (record { scanned = map some rows; broken = false; close_fails = false })
