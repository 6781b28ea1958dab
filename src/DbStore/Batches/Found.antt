-- ===== src/DbStore/Batches/Found.antt =====
-- What the queries in batches find.
use mathlib.Core.Bool.{◌||◌}
use fletchling.Prelude.{
  pos, ℕ, zero, suc, ◌-◌, ◌≡◌, ◌<◌, ◌≤◌, refl, sym, ap, ◌∙◌, ◌⊎◌, inl, inr, ℤ, int_eq, Bool, true,
  false, Option, none, some, List, [], ◌∷◌, ◌++◌, length, take, drop, take-append-drop, length-drop,
  length-take, Bool-cases, eqb, arith, map, ◌==◌, if◌then◌else◌,
}
use fletchling.Prelude.Map.{Map, lookup, insert, lookup-insert, lookup-nil}
use fletchling.Prelude.Choice.{or_else, or_else-none}
use fletchling.DbStore.Rows.{
  RowsError, Cursor, Batch, iterate_rows, iterate_rows-some, iterate_nests_batch, empty_batch,
  close_rows,
}
use fletchling.DbStore.Batches.{
  Lookups, store, min, continue_or_fail, lookup_loop, get_nests_without_polygon,
}
use fletchling.DbStore.Streaming.Pages.{good_answer}

abbrev pub contains : List ℤ → ℤ → Bool
contains [] k = false
contains (id ∷ ids) k = id == k || contains ids k

module _ {ℓ} {Row : Type ℓ} (id_of : Row → ℤ) where
  -- The last row with this id.
  abbrev pub row_with : ℤ → List Row → Option Row
  row_with k [] = none
  row_with k (row ∷ rows) = or_else (row_with k rows) (if id_of row == k then some row else none)

  -- The rows with one of the ids, `WHERE (nest_id=? OR …)`.
  abbrev pub rows_with : List ℤ → List Row → List Row
  rows_with ids [] = []
  rows_with ids (row ∷ rows) =
      if contains ids (id_of row) then row ∷ rows_with ids rows else rows_with ids rows

  row_with-rows_with :
      (k : ℤ) (ids : List ℤ) (rows : List Row)
      → row_with k (rows_with ids rows) ≡ (if contains ids k then row_with k rows else none)
  row_with-rows_with k ids [] = ground arith
  row_with-rows_with k ids (row ∷ rows) = elim (Bool-cases (id_of row == k)) [
    | inl same ↦
        let e = (int_eq.same_iff (id_of row) k).0 same in
        ground (arith, row_with-rows_with k ids rows, same, ap (contains ids) e)
    | inr other ↦ ground (arith, row_with-rows_with k ids rows, other)
  ]

  or_else_in :
      {A : Type ℓ} (a b : Bool) (r old : Option A)
      → or_else (if b then r else none) (or_else (if a then r else none) old)
        ≡ or_else (if a || b then r else none) old
  or_else_in true true none old = refl
  or_else_in true true (some r) old = refl
  or_else_in true false r old = refl
  or_else_in false true r old = refl
  or_else_in false false r old = refl

  or_else_row :
      (o : Option Row) (same : Bool) (row : Row) (old : Option Row)
      → or_else o (if same then some row else old)
        ≡ or_else (or_else o (if same then some row else none)) old
  or_else_row none true row old = refl
  or_else_row none false row old = refl
  or_else_row (some r) true row old = refl
  or_else_row (some r) false row old = refl

  contains-append :
      (xs ys : List ℤ) (k : ℤ) → contains (xs ++ ys) k ≡ (contains xs k || contains ys k)
  contains-append [] ys k = refl
  contains-append (x ∷ xs) ys k = ground (arith, contains-append xs ys k)

  module _ (batch_size : ℕ) (ask : ℕ → List ℤ → Option (Cursor Row)) where
    abbrev fn : Row → Map ℤ Row → Map ℤ Row × Option RowsError
    fn = store batch_size id_of ask

    iterate_rows-lookup :
        (k : ℤ) (rows : List Row) (b : Batch (Map ℤ Row))
        → b.error ≡ none
        → ((iterate_rows id_of fn (map some rows) b).error ≡ none)
          × (lookup k (iterate_rows id_of fn (map some rows) b).result
              ≡ or_else (row_with k rows) (lookup k b.result))
    iterate_rows-lookup k [] b fine = unfold iterate_rows in (fine, refl)
    iterate_rows-lookup k (row ∷ rows) b fine =
        rw
          (iterate_rows-some id_of fn row (map some rows) b (insert (id_of row) row b.result, none)
            refl)
          (let ih =
              iterate_rows-lookup k rows
                (record {
                  num_rows = suc b.num_rows;
                  last_id = id_of row;
                  result = insert (id_of row) row b.result;
                  error = none;
                })
                refl in
            (
              ih.0,
              ih.1
                  ∙ ap (or_else (row_with k rows)) (lookup-insert (id_of row) k row b.result)
                  ∙ or_else_row (row_with k rows) (id_of row == k) row (lookup k b.result),
            ))

    -- One query finds the rows of its ids.
    batch-lookup :
        (k : ℤ) (ids : List ℤ) (table : List Row) (nests : Map ℤ Row)
        → let b = iterate_nests_batch id_of fn (good_answer (rows_with ids table)) nests in
          (b.error ≡ none)
          × (lookup k b.result
              ≡ or_else (if contains ids k then row_with k table else none) (lookup k nests))
    unfolding iterate_nests_batch close_rows
    batch-lookup k ids table nests =
        let all =
          iterate_rows-lookup k (rows_with ids table) (empty_batch {Row = Row} id_of fn nests)
            refl in
        (
          rw all.0 refl,
          all.1 ∙ ap (λ o. or_else o (lookup k nests)) (row_with-rows_with k ids table),
        )

    -- How the query's places fit the ids that are left.
    abbrev Fits : ℕ → ℕ → ℕ → Type 0
    Fits left placeholders where_size =
        (left ≡ 0)
        ⊎ ((placeholders ≡ where_size)
            × ((where_size ≡ batch_size) ⊎ ((left ≡ where_size) × (where_size ≤ batch_size))))

    abbrev size : ℕ → ℕ
    size left = min batch_size id_of ask left batch_size

    Fits-step :
        (left placeholders where_size : ℕ)
        → 0 < left
        → Fits left placeholders where_size
        → let query = if eqb (size left) where_size then placeholders else size left in
          (query ≡ size left) × Fits (left - size left) query where_size
    Fits-step left placeholders where_size some_left h = ground (arith, some_left, h)

    module _ (table : List Row) (room : 0 < batch_size)
        (answers : (n : ℕ) (ids : List ℤ)
          → n ≡ length ids
          → ask n ids ≡ good_answer (rows_with ids table)) where
      continues :
          (next : Map ℤ Row → Option (Lookups Row)) (b : Batch (Map ℤ Row))
          → b.error ≡ none
          → continue_or_fail batch_size id_of ask next b ≡ next b.result
      continues next b fine = rw fine refl

      joined :
          (k : ℤ) (n : ℕ) (ids : List ℤ) (old found : Option Row)
          → found ≡ or_else (if contains (take n ids) k then row_with k table else none) old
          → or_else (if contains (drop n ids) k then row_with k table else none) found
            ≡ or_else (if contains ids k then row_with k table else none) old
      joined k n ids old found e =
          ap (or_else (if contains (drop n ids) k then row_with k table else none)) e
          ∙ or_else_in (contains (take n ids) k) (contains (drop n ids) k) (row_with k table) old
          ∙ ap (λ c. or_else (if c then row_with k table else none) old)
              (sym (contains-append (take n ids) (drop n ids) k)
                ∙ ap (λ l. contains l k) (take-append-drop n ids))

      pub lookup_loop-finds :
          (fuel where_size placeholders : ℕ) (ids : List ℤ) (nests : Map ℤ Row)
          → length ids ≤ fuel
          → Fits (length ids) placeholders where_size
          → (found : Map ℤ Row) × (lookup_loop batch_size id_of ask fuel where_size placeholders ids
                nests
              ≡ some (record { nests = some found; error = none }))
            × ((k : ℤ)
                → lookup k found
                  ≡ or_else (if contains ids k then row_with k table else none) (lookup k nests))
      unfolding lookup_loop
      lookup_loop-finds zero where_size placeholders [] nests enough fits = (nests, refl, λ k. refl)
      lookup_loop-finds (suc fuel) where_size placeholders [] nests enough fits =
          (nests, refl, λ k. refl)
      lookup_loop-finds zero where_size placeholders (id ∷ ids) nests enough fits =
          absurd (omega (arith, enough))
      lookup_loop-finds (suc fuel) where_size placeholders (id ∷ ids) nests enough fits =
          let n = size (length (id ∷ ids)) in
          let query = if eqb n where_size then placeholders else n in
          let next = λ (found : Map ℤ Row).
            lookup_loop batch_size id_of ask fuel where_size query (drop n (id ∷ ids)) found in
          let (same, fits') =
            Fits-step (length (id ∷ ids)) placeholders where_size (omega arith) fits in
          let small : n ≤ length (id ∷ ids) = ground arith in
          let some_taken : 0 < n = ground (arith, room) in
          let answer =
            answers query (take n (id ∷ ids)) (same ∙ sym (length-take n (id ∷ ids) small)) in
          let b = iterate_nests_batch id_of fn (ask query (take n (id ∷ ids))) nests in
          let finds : (k : ℤ)
              → (b.error ≡ none)
                × (lookup k b.result
                    ≡ or_else (if contains (take n (id ∷ ids)) k then row_with k table else none)
                        (lookup k nests)) =
            λ k. rw answer (batch-lookup k (take n (id ∷ ids)) table nests) in
          let (found, e, all) =
            lookup_loop-finds fuel where_size query (drop n (id ∷ ids)) b.result
              (omega (arith, length-drop n (id ∷ ids), small, some_taken, enough))
              (rw (length-drop n (id ∷ ids)) fits') in
          (
            found,
            continues next b (finds (pos 0)).0 ∙ e,
            λ k. all k ∙ joined k n (id ∷ ids) (lookup k nests) (lookup k b.result) (finds k).1,
          )

-- If a query with as many places as it is given ids answers with the rows of the table that have
-- one of them, then GetNestsWithoutPolygon on at least one id, with at least as much fuel as ids,
-- returns a map and no error: under each id that was asked for it has the row of the table with
-- that id, or nothing if there is none, and under no other id does it have anything. So each of
-- its queries has the right number of places.
pub get_nests_without_polygon-finds {ℓ} :
    {Row : Type ℓ} (id_of : Row → ℤ) (ask : ℕ → List ℤ → Option (Cursor Row)) (table : List Row)
    (id : ℤ) (ids : List ℤ) (fuel : ℕ)
    → ((n : ℕ) (some_ids : List ℤ)
        → n ≡ length some_ids
        → ask n some_ids ≡ good_answer (rows_with id_of some_ids table))
    → length (id ∷ ids) ≤ fuel
    → (found : Map ℤ Row) × (get_nests_without_polygon id_of ask (id ∷ ids) fuel
        ≡ some (record { nests = some found; error = none }))
      × ((k : ℤ)
          → lookup k found ≡ (if contains (id ∷ ids) k then row_with id_of k table else none))
unfolding get_nests_without_polygon
get_nests_without_polygon-finds id_of ask table id ids fuel answers enough =
    let (found, e, all) =
      lookup_loop-finds id_of 500 ask table (omega arith) answers fuel
        (min 500 id_of ask (length (id ∷ ids)) 500) (min 500 id_of ask (length (id ∷ ids)) 500)
        (id ∷ ids) [] enough (ground arith) in
    (
      found,
      e,
      λ k.
          all k
          ∙ ap (or_else (if contains (id ∷ ids) k then row_with id_of k table else none))
              (lookup-nil k)
          ∙ or_else-none _,
    )
