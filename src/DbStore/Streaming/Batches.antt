-- ===== src/DbStore/Streaming/Batches.antt =====
-- One batch of a stream: what it sends of the rows that were asked for.
use mathlib.Core.List.{append_assoc, append-nil}
use fletchling.Prelude.{
  ℕ, suc, ◌+◌, ◌≡◌, refl, sym, ap, ◌∙◌, ◌⊎◌, inl, inr, ℤ, Bool, true, false, Option, none, some,
  List, [], ◌∷◌, ◌++◌, map, length, Bool-cases, arith,
}
use fletchling.DbStore.Rows.{
  seen, iterate_rows-some, RowsError, stopped, query_failed, scan_failed, reading_failed,
  closing_failed, Cursor, Batch, iterate_rows, iterate_nests_batch, empty_batch, close_rows,
  or_error, reading_error,
}
use fletchling.DbStore.Streaming.{send}
use fletchling.DbStore.Streaming.Pages.{IsAnswer, refused, whole, cut, unscanned}

module _ {ℓ} {Row : Type ℓ} (limit : ℕ) (id_of : Row → ℤ) (cancelled : ℕ → Bool)
    (ask : Option ℤ → Option (Cursor Row)) where
  abbrev pub fn : Row → List Row → List Row × Option RowsError
  fn = send limit id_of cancelled ask

  abbrev next_batch : Batch (List Row) → Row → Batch (List Row)
  next_batch b row = record {
    num_rows = suc b.num_rows;
    last_id = id_of row;
    result = b.result ++ row ∷ [];
    error = none;
  }

  abbrev pub all_sent : List Row → Batch (List Row) → Batch (List Row)
  all_sent [] b = b
  all_sent (row ∷ rows) b = all_sent rows (next_batch b row)

  all_sent-result :
      (rows : List Row) (b : Batch (List Row)) → (all_sent rows b).result ≡ b.result ++ rows
  all_sent-result [] b = sym (append-nil b.result)
  all_sent-result (row ∷ rows) b =
      all_sent-result rows (next_batch b row) ∙ append_assoc b.result (row ∷ []) rows

  all_sent-num_rows :
      (rows : List Row) (b : Batch (List Row))
      → (all_sent rows b).num_rows ≡ b.num_rows + length rows
  all_sent-num_rows [] b = omega arith
  all_sent-num_rows (row ∷ rows) b = omega (arith, all_sent-num_rows rows (next_batch b row))

  pub all_sent-last_id :
      (rows : List Row) (row : Row) (b : Batch (List Row))
      → (all_sent (rows ++ row ∷ []) b).last_id ≡ id_of row
  all_sent-last_id [] row b = refl
  all_sent-last_id (other ∷ rows) row b = all_sent-last_id rows row (next_batch b other)

  all_sent-error :
      (rows : List Row) (b : Batch (List Row)) → b.error ≡ none → (all_sent rows b).error ≡ none
  all_sent-error [] b h = h
  all_sent-error (row ∷ rows) b h = all_sent-error rows (next_batch b row) refl

  -- A batch that ended with an error sent the first of the rows.
  pub record IsHalted (rows sent : List Row) (b : Batch (List Row)) : Type ℓ where
    pub front : List Row
    pub back : List Row
    pub split : rows ≡ front ++ back
    pub so_far : b.result ≡ sent ++ front
    pub reason : RowsError
    pub failed : b.error ≡ some reason

  more_front :
      (row : Row) (rows : List Row) (b b' : Batch (List Row))
      → IsHalted rows (b.result ++ row ∷ []) b'
      → IsHalted (row ∷ rows) b.result b'
  more_front row rows b b' h = record {
    front = row ∷ h.front;
    back = h.back;
    split = ap (◌∷◌ row) h.split;
    so_far = h.so_far ∙ append_assoc b.result (row ∷ []) h.front;
    reason = h.reason;
    failed = h.failed;
  }

  iterate_rows-over :
      (row : Row) (more : List (Option Row)) (b : Batch (List Row))
      → cancelled (length b.result) ≡ true
      → iterate_rows id_of fn (some row ∷ more) b ≡ seen id_of fn row b (b.result, some stopped)
  iterate_rows-over row more b over =
      iterate_rows-some id_of fn row more b (b.result, some stopped) (rw over refl)

  pub iterate_rows-on :
      (row : Row) (more : List (Option Row)) (b : Batch (List Row))
      → cancelled (length b.result) ≡ false
      → iterate_rows id_of fn (some row ∷ more) b ≡ iterate_rows id_of fn more (next_batch b row)
  iterate_rows-on row more b on =
      iterate_rows-some id_of fn row more b (b.result ++ row ∷ [], none) (rw on refl)

  -- The rows are all sent, or the context ends before.
  iterate_rows-send :
      (rows : List Row) (tail : List (Option Row)) (b : Batch (List Row))
      → IsHalted rows b.result (iterate_rows id_of fn (map some rows ++ tail) b)
        ⊎ (iterate_rows id_of fn (map some rows ++ tail) b
            ≡ iterate_rows id_of fn tail (all_sent rows b))
  iterate_rows-send [] tail b = inr refl
  iterate_rows-send (row ∷ rows) tail b = elim (Bool-cases (cancelled (length b.result))) [
    | inl over ↦ inl (
        rw (iterate_rows-over row (map some rows ++ tail) b over) (record {
          front = [];
          back = row ∷ rows;
          split = refl;
          so_far = sym (append-nil b.result);
          reason = stopped;
          failed = refl;
        }))
    | inr on ↦
        rw (iterate_rows-on row (map some rows ++ tail) b on)
          (elim (iterate_rows-send rows tail (next_batch b row)) [
            | inl h ↦ inl (more_front row rows b _ h)
            | inr e ↦ inr e
          ])
  ]

  -- The end of a batch whose rows were all sent.
  abbrev ended : Cursor Row → Batch (List Row) → Batch (List Row)
  ended c b = record b {
    error = close_rows c.close_fails (or_error b.error (reading_error c.broken));
  }

  -- What a batch that ended well leaves.
  abbrev pub Ends : List Row → List Row → Batch (List Row) → Type ℓ
  Ends rows sent b =
      (b.error ≡ none)
      × (b.result ≡ sent ++ rows)
      × (b.num_rows ≡ length rows)
      × (b.last_id ≡ (all_sent rows (empty_batch {Row = Row} id_of fn sent)).last_id)

  ended-IsHalted :
      (rows sent front back : List Row) (c : Cursor Row) (b : Batch (List Row)) (e : RowsError)
      → rows ≡ front ++ back
      → b.result ≡ sent ++ front
      → or_error b.error (reading_error c.broken) ≡ some e
      → IsHalted rows sent (ended c b)
  unfolding close_rows
  ended-IsHalted rows sent front back c b e split so_far failed = record {
    front = front;
    back = back;
    split = split;
    so_far = so_far;
    reason = e;
    failed = ap (close_rows c.close_fails) failed;
  }

  -- The first of the rows are scanned, and what follows ends with an error.
  first_rows-IsHalted :
      (rows sent front back : List Row) (c : Cursor Row) (tail : List (Option Row)) (e : RowsError)
      → rows ≡ front ++ back
      → c.scanned ≡ map some front ++ tail
      → ((b : Batch (List Row))
          → b.error ≡ none
          → ((iterate_rows id_of fn tail b).result ≡ b.result)
            × (or_error (iterate_rows id_of fn tail b).error (reading_error c.broken) ≡ some e))
      → IsHalted rows sent (iterate_nests_batch id_of fn (some c) sent)
  unfolding iterate_nests_batch
  first_rows-IsHalted rows sent front back c tail e split scan ends =
      let start = empty_batch {Row = Row} id_of fn sent in
      rw scan (elim (iterate_rows-send front tail start) [
        | inl h ↦
            ended-IsHalted rows sent h.front (h.back ++ back) c _ h.reason
              (split ∙ ap (λ l. l ++ back) h.split ∙ append_assoc h.front h.back back) h.so_far
              (ap (λ o. or_error o (reading_error c.broken)) h.failed)
        | inr all ↦ rw all (
            let last = ends (all_sent front start) (all_sent-error front start refl) in
            ended-IsHalted rows sent front back c _ e split (last.0 ∙ all_sent-result front start)
              last.1)
      ])

  no_error :
      (rows sent : List Row) (b : Batch (List Row))
      → b ≡ all_sent rows (empty_batch {Row = Row} id_of fn sent)
      → b.error ≡ none
  no_error rows sent b all =
      rw all (all_sent-error rows (empty_batch {Row = Row} id_of fn sent) refl)

  pub whole-Ends :
      (rows sent : List Row) (c : Cursor Row) (b : Batch (List Row))
      → c.broken ≡ false
      → c.close_fails ≡ false
      → b ≡ all_sent rows (empty_batch {Row = Row} id_of fn sent)
      → Ends rows sent (ended c b)
  unfolding close_rows
  whole-Ends rows sent c b broken fail all = (
    rw (no_error rows sent b all, broken, fail) refl,
    rw all (all_sent-result rows _),
    rw all (all_sent-num_rows rows _ ∙ omega arith),
    rw all refl,
  )

  whole-closed :
      (rows sent : List Row) (c : Cursor Row) (b : Batch (List Row)) (broken fails : Bool)
      → c.broken ≡ broken
      → c.close_fails ≡ fails
      → b ≡ all_sent rows (empty_batch {Row = Row} id_of fn sent)
      → IsHalted rows sent (ended c b) ⊎ Ends rows sent (ended c b)
  unfolding close_rows
  whole-closed rows sent c b true fails broken fail all = inl (
      ended-IsHalted rows sent rows [] c b reading_failed (sym (append-nil rows))
        (rw all (all_sent-result rows _)) (rw (no_error rows sent b all, broken) refl))
  whole-closed rows sent c b false true broken fail all = inl (record {
    front = rows;
    back = [];
    split = sym (append-nil rows);
    so_far = rw all (all_sent-result rows _);
    reason = closing_failed;
    failed = rw (no_error rows sent b all, broken, fail) refl;
  })
  whole-closed rows sent c b false false broken fail all =
      inr (whole-Ends rows sent c b broken fail all)

  pub iterate_nests_batch-send :
      (rows sent : List Row) (answer : Option (Cursor Row))
      → IsAnswer rows answer
      → IsHalted rows sent (iterate_nests_batch id_of fn answer sent)
        ⊎ Ends rows sent (iterate_nests_batch id_of fn answer sent)
  unfolding iterate_nests_batch
  iterate_nests_batch-send rows sent none refused = inl (record {
    front = [];
    back = rows;
    split = refl;
    so_far = sym (append-nil sent);
    reason = query_failed;
    failed = refl;
  })
  iterate_nests_batch-send rows sent (some c) (whole _ scan) =
      let start = empty_batch {Row = Row} id_of fn sent in
      rw scan (
        rw (← append-nil (map some rows)) (elim (iterate_rows-send rows [] start) [
          | inl h ↦ inl (
              ended-IsHalted rows sent h.front h.back c _ h.reason h.split h.so_far
                (ap (λ o. or_error o (reading_error c.broken)) h.failed))
          | inr all ↦ whole-closed rows sent c _ c.broken c.close_fails refl refl all
        ]))
  iterate_nests_batch-send rows sent (some c) (cut _ front back split scan broken) = inl (
      first_rows-IsHalted rows sent front back c [] reading_failed split
        (scan ∙ sym (append-nil (map some front)))
        (λ b none_yet.
          (unfold iterate_rows in refl, unfold iterate_rows in rw (none_yet, broken) refl)))
  iterate_nests_batch-send rows sent (some c) (unscanned _ front back more split scan) = inl (
      first_rows-IsHalted rows sent front back c (none ∷ more) scan_failed split scan
        (λ b none_yet. (unfold iterate_rows in refl, unfold iterate_rows in refl)))
