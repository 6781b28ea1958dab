-- ===== src/DbStore/Streaming/Complete.antt =====
-- A stream with which nothing goes wrong.
use native.Mathlib.Decide.{dec_lt}
use fletchling.Prelude.{
  ℕ, zero, suc, ◌≡◌, ◌<◌, ◌≤◌, refl, sym, ap, ◌∙◌, ℤ, Bool, true, false, Option, none, some, List,
  [], ◌∷◌, ◌++◌, length, take, drop, length-take-le, length-drop, take-eq_self, ltb, arith, subst,
  map,
}
use fletchling.DbStore.Rows.{Cursor, Batch, iterate_rows, iterate_nests_batch, empty_batch}
use fletchling.DbStore.Streaming.{Streamed, stream_from, stream_nests, after_batch}
use fletchling.DbStore.Streaming.Pages.{Ascending, rows_after-none, page, good_answer}
use fletchling.DbStore.Streaming.Batches.{fn, all_sent, Ends, iterate_rows-on, whole-Ends}
use fletchling.DbStore.Streaming.Prefix.{Stands, Stands-page}

module _ {ℓ} {Row : Type ℓ} (limit : ℕ) (id_of : Row → ℤ) (cancelled : ℕ → Bool)
    (ask : Option ℤ → Option (Cursor Row)) (on : (n : ℕ) → cancelled n ≡ false) where
  iterate_rows-all :
      (rows : List Row) (b : Batch (List Row))
      → iterate_rows id_of (fn limit id_of cancelled ask) (map some rows) b
        ≡ all_sent limit id_of cancelled ask rows b
  iterate_rows-all [] b = unfold iterate_rows in refl
  iterate_rows-all (row ∷ rows) b =
      iterate_rows-on limit id_of cancelled ask row (map some rows) b (on (length b.result))
      ∙ iterate_rows-all rows _

  good-Ends :
      (rows sent : List Row)
      → Ends limit id_of cancelled ask rows sent
          (iterate_nests_batch id_of (fn limit id_of cancelled ask) (good_answer rows) sent)
  unfolding iterate_nests_batch
  good-Ends rows sent =
      whole-Ends limit id_of cancelled ask rows sent
        (record { scanned = map some rows; broken = false; close_fails = false }) _ refl refl
        (iterate_rows-all rows (empty_batch {Row = Row} id_of (fn limit id_of cancelled ask) sent))

  module _ (table : List Row) (room : 0 < limit) (ordered : Ascending id_of table) where
    abbrev whole_table : Option (Streamed Row)
    whole_table = some (record { sent = table; closed = true; error = none })

    short :
        (next : Option ℤ → List Row → Option (Streamed Row)) (b : Batch (List Row))
        → b.error ≡ none
        → b.num_rows < limit
        → b.result ≡ table
        → after_batch limit id_of cancelled ask next b ≡ whole_table
    short next b fine few all =
        let test : ltb b.num_rows limit ≡ true = ground (arith, few) in
        rw fine (rw test (ap (λ l. some (record { sent = l; closed = true; error = none })) all))

    full :
        (next : Option ℤ → List Row → Option (Streamed Row)) (b : Batch (List Row))
        → b.error ≡ none
        → limit ≤ b.num_rows
        → after_batch limit id_of cancelled ask next b ≡ next (some b.last_id) b.result
    full next b fine many =
        let test : ltb b.num_rows limit ≡ false = ground (arith, many) in rw fine (rw test refl)

    pub stream_from-eq :
        ((after : Option ℤ) → ask after ≡ good_answer (page id_of limit table after))
        → (fuel : ℕ) (after : Option ℤ) (sent rest : List Row) → length rest < fuel
        → Stands limit id_of cancelled ask table room ordered after sent rest
        → stream_from limit id_of cancelled ask fuel after sent ≡ whole_table
    unfolding stream_from
    stream_from-eq answers zero after sent rest small at = absurd (omega (arith, small))
    stream_from-eq answers (suc fuel) after sent rest small at =
        let next = λ (last : Option ℤ) (rows : List Row).
          stream_from limit id_of cancelled ask fuel last rows in
        let b = iterate_nests_batch id_of (fn limit id_of cancelled ask) (ask after) sent in
        let (fine, result, number, last) =
          subst
            (λ a.
              Ends limit id_of cancelled ask (take limit rest) sent
                (iterate_nests_batch id_of (fn limit id_of cancelled ask) a sent))
            (sym (answers after ∙ ap (λ l. good_answer (take limit l)) at.coming))
            (good-Ends (take limit rest) sent) in
        elim (dec_lt (length (take limit rest)) limit) [
          | yes few ↦
              short next b fine (omega (arith, number, few))
                (result ∙ ap (◌++◌ sent) (take-eq_self limit rest few) ∙ sym at.split)
          | no long ↦
              let many : limit ≤ length rest = omega (arith, long, length-take-le limit rest) in
              full next b fine (omega (arith, number, long))
              ∙ ap (next (some b.last_id)) result
              ∙ stream_from-eq answers fuel (some b.last_id) (sent ++ take limit rest)
                  (drop limit rest) (omega (arith, length-drop limit rest, many, room, small))
                  (Stands-page limit id_of cancelled ask table room ordered after sent rest b at
                    many last)
        ]

-- If the table is in the order of its ids, no answer has an error and the context does not end,
-- then StreamNests, with more rounds of fuel than the table has rows, sends exactly the table in
-- order, closes the channel and returns no error.
pub stream_nests-eq_table {ℓ} :
    {Row : Type ℓ} (id_of : Row → ℤ) (cancelled : ℕ → Bool)
    (ask : Bool → Option ℤ → Option (Cursor Row)) (include_polygon : Bool) (table : List Row)
    (fuel : ℕ)
    → Ascending id_of table
    → ((n : ℕ) → cancelled n ≡ false)
    → ((after : Option ℤ) → ask include_polygon after ≡ good_answer (page id_of 1000 table after))
    → length table < fuel
    → stream_nests id_of cancelled ask include_polygon fuel
      ≡ some (record { sent = table; closed = true; error = none })
unfolding stream_nests
stream_nests-eq_table id_of cancelled ask include_polygon table fuel ordered on answers enough =
    stream_from-eq 1000 id_of cancelled (ask include_polygon) on table (omega arith) ordered answers
      fuel none [] table enough (record { split = refl; coming = rows_after-none id_of table })
