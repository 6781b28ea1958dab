-- ===== src/DbStore/Streaming/Prefix.antt =====
-- What a stream sends, whatever goes wrong.
use mathlib.Core.List.{append_assoc}
use fletchling.Prelude.{
  ℕ, zero, suc, ◌≡◌, ◌<◌, ◌≤◌, refl, sym, ap, ◌∙◌, ◌⊎◌, inl, inr, ℤ, Bool, true, false, Option,
  none, some, List, [], ◌∷◌, ◌++◌, length, take, drop, take-append-drop, length-take,
  length-take-le, length-drop, take-eq_self, snoc-cases, ltb, arith, subst,
}
use native.Mathlib.Decide.{dec_lt}
use fletchling.DbStore.Rows.{RowsError, Cursor, Batch, iterate_nests_batch, empty_batch}
use fletchling.DbStore.Streaming.{Streamed, stream_from, stream_nests, after_batch}
use fletchling.DbStore.Streaming.Pages.{
  Ascending, rows_after, rows_after-row, rows_after-none, page, IsAnswer,
}
use fletchling.DbStore.Streaming.Batches.{fn, all_sent, all_sent-last_id, iterate_nests_batch-send}

module _ {ℓ} {Row : Type ℓ} (limit : ℕ) (id_of : Row → ℤ) (cancelled : ℕ → Bool)
    (ask : Option ℤ → Option (Cursor Row)) (table : List Row) (room : 0 < limit)
    (ordered : Ascending id_of table) where
  -- Where a stream stands: what was sent, and what comes after the last id.
  pub record Stands (after : Option ℤ) (sent rest : List Row) : Type ℓ where
    pub split : table ≡ sent ++ rest
    pub coming : rows_after id_of after table ≡ rest

  -- After a full page the stream stands behind it.
  pub Stands-page :
      (after : Option ℤ) (sent rest : List Row) (b : Batch (List Row))
      → Stands after sent rest
      → limit ≤ length rest
      → b.last_id
        ≡ (all_sent limit id_of cancelled ask
            (take limit rest)
            (empty_batch {Row = Row} id_of (fn limit id_of cancelled ask) sent)).last_id
      → Stands (some b.last_id) (sent ++ take limit rest) (drop limit rest)
  Stands-page after sent rest b at full last =
      let (front, row, e) =
        snoc-cases (take limit rest) (omega (arith, length-take limit rest full, room, full)) in
      let split : table ≡ (sent ++ take limit rest) ++ drop limit rest =
        at.split
        ∙ ap (◌++◌ sent) (sym (take-append-drop limit rest))
        ∙ sym (append_assoc sent (take limit rest) (drop limit rest)) in
      let id : b.last_id ≡ id_of row =
        last
        ∙ ap
            (λ l.
              (all_sent limit id_of cancelled ask l
                (empty_batch {Row = Row} id_of (fn limit id_of cancelled ask) sent)).last_id)
            e
        ∙ all_sent-last_id limit id_of cancelled ask front row _ in
      let at_row : table ≡ (sent ++ front) ++ row ∷ drop limit rest =
        split
        ∙ ap (λ l. (sent ++ l) ++ drop limit rest) e
        ∙ ap (λ l. l ++ drop limit rest) (sym (append_assoc sent front (row ∷ [])))
        ∙ append_assoc (sent ++ front) (row ∷ []) (drop limit rest) in
      record {
        split = split;
        coming =
            ap (λ i. rows_after id_of (some i) table) id
            ∙ subst
                (λ t. Ascending id_of t → rows_after id_of (some (id_of row)) t ≡ drop limit rest)
                (sym at_row) (rows_after-row id_of (sent ++ front) (drop limit rest) row) ordered;
      }

  -- What a stream comes to: all of the table, or an error and the first rows of it.
  abbrev pub IsPrefix : Option (Streamed Row) → Type ℓ
  IsPrefix o =
      (s : Streamed Row) × (o ≡ some s)
      × (s.closed ≡ true)
      × (((s.error ≡ none) × (s.sent ≡ table))
          ⊎ ((e : RowsError) × (back : List Row) × (s.error ≡ some e) × (table ≡ s.sent ++ back)))

  module _ (next : Option ℤ → List Row → Option (Streamed Row)) (b : Batch (List Row)) where
    after_failed :
        (e : RowsError) (back : List Row)
        → b.error ≡ some e
        → table ≡ b.result ++ back
        → IsPrefix (after_batch limit id_of cancelled ask next b)
    after_failed e back failed split = (
      record { sent = b.result; closed = true; error = b.error },
      rw failed refl,
      refl,
      inr (e, back, failed, split),
    )

    after_short :
        b.error ≡ none
        → b.num_rows < limit
        → b.result ≡ table
        → IsPrefix (after_batch limit id_of cancelled ask next b)
    after_short fine short all =
        let test : ltb b.num_rows limit ≡ true = ground (arith, short) in
        (
          record { sent = b.result; closed = true; error = b.error },
          rw fine (rw test refl),
          refl,
          inl (fine, all),
        )

    after_full :
        b.error ≡ none
        → limit ≤ b.num_rows
        → IsPrefix (next (some b.last_id) b.result)
        → IsPrefix (after_batch limit id_of cancelled ask next b)
    after_full fine full h =
        let test : ltb b.num_rows limit ≡ false = ground (arith, full) in rw fine (rw test h)

  pub stream_from-IsPrefix :
      ((after : Option ℤ) → IsAnswer (page id_of limit table after) (ask after))
      → (fuel : ℕ) (after : Option ℤ) (sent rest : List Row) → length rest < fuel
      → Stands after sent rest
      → IsPrefix (stream_from limit id_of cancelled ask fuel after sent)
  unfolding stream_from
  stream_from-IsPrefix answers zero after sent rest small at = absurd (omega (arith, small))
  stream_from-IsPrefix answers (suc fuel) after sent rest small at =
      let next = λ (last : Option ℤ) (rows : List Row).
        stream_from limit id_of cancelled ask fuel last rows in
      let b = iterate_nests_batch id_of (fn limit id_of cancelled ask) (ask after) sent in
      let answer = subst (λ l. IsAnswer (take limit l) (ask after)) at.coming (answers after) in
      elim (iterate_nests_batch-send limit id_of cancelled ask (take limit rest) sent (ask after)
        answer) [
          | inl h ↦ after_failed next b h.reason (h.back ++ drop limit rest) h.failed (
              at.split
              ∙ ap (◌++◌ sent) (
                  sym (take-append-drop limit rest)
                  ∙ ap (λ l. l ++ drop limit rest) h.split
                  ∙ append_assoc h.front h.back (drop limit rest))
              ∙ sym (append_assoc sent h.front (h.back ++ drop limit rest))
              ∙ ap (λ l. l ++ (h.back ++ drop limit rest)) (sym h.so_far))
          | inr (fine, result, number, last) ↦ elim (dec_lt (length (take limit rest)) limit) [
            | yes short ↦
                after_short next b fine (omega (arith, number, short))
                  (result ∙ ap (◌++◌ sent) (take-eq_self limit rest short) ∙ sym at.split)
            | no long ↦
                let full : limit ≤ length rest = omega (arith, long, length-take-le limit rest) in
                after_full next b fine (omega (arith, number, long)) (
                  subst
                    (λ l. IsPrefix (stream_from limit id_of cancelled ask fuel (some b.last_id) l))
                    (sym result)
                    (stream_from-IsPrefix answers fuel (some b.last_id) (sent ++ take limit rest)
                      (drop limit rest) (omega (arith, length-drop limit rest, full, room, small))
                      (Stands-page after sent rest b at full last)))
          ]
        ]

-- If the table is in the order of its ids and each answer has the page of 1000 rows that was
-- asked for or tells of an error behind the first of them, then StreamNests returns, with more
-- rounds of fuel than the table has rows, whatever fails and whenever the context ends: it closes
-- the channel, and either it returns no error and has sent the whole table, or it returns an
-- error and has sent the first rows of the table in order.
pub stream_nests-IsPrefix {ℓ} :
    {Row : Type ℓ} (id_of : Row → ℤ) (cancelled : ℕ → Bool)
    (ask : Bool → Option ℤ → Option (Cursor Row)) (include_polygon : Bool) (table : List Row)
    (fuel : ℕ)
    → Ascending id_of table
    → ((after : Option ℤ) → IsAnswer (page id_of 1000 table after) (ask include_polygon after))
    → length table < fuel
    → (s : Streamed Row) × (stream_nests id_of cancelled ask include_polygon fuel ≡ some s)
      × (s.closed ≡ true)
      × (((s.error ≡ none) × (s.sent ≡ table))
          ⊎ ((e : RowsError) × (back : List Row) × (s.error ≡ some e) × (table ≡ s.sent ++ back)))
unfolding stream_nests
stream_nests-IsPrefix id_of cancelled ask include_polygon table fuel ordered answers enough =
    stream_from-IsPrefix 1000 id_of cancelled (ask include_polygon) table (omega arith) ordered
      answers fuel none [] table enough
      (record { split = refl; coming = rows_after-none id_of table })
