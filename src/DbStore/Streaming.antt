-- ===== src/DbStore/Streaming.antt =====
-- StreamNests of db_store/nests.go: pages of nests in the order of their ids, each page after the last
-- id of the one before. The channel is the list of what was sent to it, and the answers of the database
-- and the moment of the context's end are parameters.
pub mod Pages
pub mod Batches
pub mod Prefix
pub mod Complete
use fletchling.Prelude.{
  ℕ, zero, suc, ℤ, Bool, true, Option, none, some, List, [], ◌∷◌, ◌++◌, length, ltb, if◌then◌else◌,
}
use fletchling.DbStore.Rows.{RowsError, stopped, Cursor, Batch, iterate_rows, iterate_nests_batch}

-- What a stream leaves: the rows sent, whether the channel is closed, and the error returned.
pub record Streamed {ℓ} (Row : Type ℓ) : Type ℓ where
  pub sent : List Row
  pub closed : Bool
  pub error : Option RowsError

-- `cancelled` tells whether the context is seen to be over when so many rows have been sent, and
-- `ask` is the answer to the query, without or with `WHERE nest_id > last`.
module _ {ℓ} {Row : Type ℓ} (limit : ℕ) (id_of : Row → ℤ) (cancelled : ℕ → Bool)
    (ask : Option ℤ → Option (Cursor Row)) where
  abbrev pub send : Row → List Row → List Row × Option RowsError
  send row sent = if cancelled (length sent) then (sent, some stopped) else (sent ++ row ∷ [], none)

  abbrev pub closed_channel : Batch (List Row) → Streamed Row
  closed_channel b = record { sent = b.result; closed = true; error = b.error }

  -- What follows a batch: an error or a short page ends the stream, else the next page is asked for.
  abbrev pub after_batch :
      (Option ℤ → List Row → Option (Streamed Row)) → Batch (List Row) → Option (Streamed Row)
  after_batch next b = elim b.error [
    | some e ↦ some (closed_channel b)
    | none ↦
        if ltb b.num_rows limit then some (closed_channel b) else next (some b.last_id) b.result
  ]

  -- The first query and the loop; none if the fuel runs out.
  unfoldable pub stream_from : ℕ → Option ℤ → List Row → Option (Streamed Row)
  unfolding iterate_nests_batch
  stream_from zero after sent = none
  stream_from (suc fuel) after sent =
      let next = λ (last : Option ℤ) (rows : List Row). stream_from fuel last rows in
      after_batch next (iterate_nests_batch id_of send (ask after) sent)

-- Pages have 1000 rows.
unfoldable pub stream_nests {ℓ} :
    {Row : Type ℓ}
    → (Row → ℤ)
    → (ℕ → Bool)
    → (Bool → Option ℤ → Option (Cursor Row))
    → Bool
    → ℕ
    → Option (Streamed Row)
unfolding stream_from
stream_nests id_of cancelled ask include_polygon fuel =
    stream_from 1000 id_of cancelled (ask include_polygon) fuel none []
