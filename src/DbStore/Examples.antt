-- ===== src/DbStore/Examples.antt =====
-- Concrete runs of the queries of db_store/nests.go: rows that are known by an id alone.
use fletchling.Prelude.{
  ℕ, ◌≡◌, ◌⊎◌, refl, ℤ, pos, int_eq, Bool, true, false, Option, none, some, List, [], ◌∷◌, ◌++◌,
  leb, map, arith, if◌then◌else◌, length,
}
use fletchling.Prelude.Int.{eqb_ℤ}
use fletchling.Prelude.Map.{Map, lookup}
use fletchling.DbStore.Rows.{RowsError, Cursor, get_nests}
use fletchling.DbStore.Streaming.{Streamed, stream_nests}
use fletchling.DbStore.Streaming.Pages.{whole, unscanned, Ascending, page, good_answer}
use fletchling.DbStore.Streaming.Prefix.{stream_nests-IsPrefix}
use fletchling.DbStore.Streaming.Complete.{stream_nests-eq_table}
use fletchling.DbStore.Batches.{get_nests_without_polygon}
use fletchling.DbStore.Batches.Found.{
  contains, row_with, rows_with, get_nests_without_polygon-finds,
}
use fletchling.DbStore.Getters.{AllOrNothing, get_nests-AllOrNothing}

abbrev id_of : ℤ → ℤ
id_of id = id

abbrev three : List ℤ
three = pos 1 ∷ pos 4 ∷ pos 9 ∷ []

abbrev ask_three : Bool → Option ℤ → Option (Cursor ℤ)
ask_three include_polygon after = good_answer (page id_of 1000 three after)

abbrev three-Ascending : Ascending id_of three
three-Ascending = ((refl, (refl, tt)), ((refl, tt), (tt, tt)))

-- The context ends when two rows have been sent.
stream_nests-IsPrefix_example :
    (s : Streamed ℤ) × (stream_nests id_of (leb 2) ask_three true 4 ≡ some s)
    × (s.closed ≡ true)
    × (((s.error ≡ none) × (s.sent ≡ three))
        ⊎ ((e : RowsError) × (back : List ℤ) × (s.error ≡ some e) × (three ≡ s.sent ++ back)))
stream_nests-IsPrefix_example =
    stream_nests-IsPrefix id_of (leb 2) ask_three true three 4 three-Ascending
      (λ after.
        whole
          (record {
            scanned = map some (page id_of 1000 three after);
            broken = false;
            close_fails = false;
          })
          refl)
      (omega arith)

stream_nests-eq_table_example :
    stream_nests id_of (λ n. false) ask_three false 4
    ≡ some (record { sent = three; closed = true; error = none })
stream_nests-eq_table_example =
    stream_nests-eq_table id_of (λ n. false) ask_three false three 4 three-Ascending (λ n. refl)
      (λ after. refl) (omega arith)

abbrev ask_ids : ℕ → List ℤ → Option (Cursor ℤ)
ask_ids placeholders ids = good_answer (rows_with id_of ids three)

get_nests_without_polygon-finds_example :
    (found : Map ℤ ℤ) × (get_nests_without_polygon id_of ask_ids (pos 4 ∷ pos 5 ∷ []) 2
      ≡ some (record { nests = some found; error = none }))
    × ((k : ℤ)
        → lookup k found
          ≡ (if contains (pos 4 ∷ pos 5 ∷ []) k then row_with id_of k three else none))
get_nests_without_polygon-finds_example =
    get_nests_without_polygon-finds id_of ask_ids three (pos 4) (pos 5 ∷ []) 2 (λ n ids e. refl)
      (omega arith)

-- The second row does not scan.
abbrev bad_second : Cursor ℤ
bad_second = record { scanned = some (pos 1) ∷ none ∷ []; broken = false; close_fails = false }

get_nests-AllOrNothing_example : AllOrNothing three (get_nests (some bad_second))
get_nests-AllOrNothing_example =
    get_nests-AllOrNothing three (some bad_second)
      (unscanned bad_second (pos 1 ∷ []) (pos 4 ∷ pos 9 ∷ []) [] refl refl)

-- Reading breaks off after the first row.
abbrev cut_short : Cursor ℤ
cut_short = record { scanned = some (pos 1) ∷ []; broken = true; close_fails = false }

stopped_after_two :
    stream_nests id_of (leb 2) ask_three true 4
    ≡ some (record { sent = pos 1 ∷ pos 4 ∷ []; closed = true; error = some RowsError.stopped })
unfolding stream_nests
stopped_after_two = refl

found_four :
    get_nests_without_polygon id_of ask_ids (pos 4 ∷ pos 5 ∷ []) 2
    ≡ some (record { nests = some ((pos 4, pos 4) ∷ []); error = none })
unfolding get_nests_without_polygon eqb_ℤ fletchling.Prelude.Map.insert
found_four = refl
