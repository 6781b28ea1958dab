-- ===== src/Overpass.antt =====
-- The queries of overpass/client.go and overpass/errors.go. What the service answers and JSON are
-- parameters. The bound that each try widens is random and left out.
pub mod Retries
pub mod Examples
use mathlib.Core.Bool.{◌&&◌, not}
use fletchling.Prelude.{
  ℕ, zero, suc, Bool, true, false, Option, none, some, List, [], ◌∷◌, eqb, if◌then◌else◌,
}
use fletchling.Geo.{codes}

pub data QueryError : Type 0 where
  timeout dupe_query unknown not_sent not_read bad_status bad_json ended : QueryError

abbrev pub starts_with : List ℕ → List ℕ → Bool
starts_with [] s = true
starts_with (c ∷ p) [] = false
starts_with (c ∷ p) (d ∷ s) = eqb c d && starts_with p s

abbrev pub after_token : List ℕ → List ℕ → List ℕ
after_token [] s = s
after_token (_ ∷ p) [] = []
after_token (_ ∷ p) (_ ∷ s) = after_token p s

-- What follows the first place at which the token stands.
unfoldable pub after_first : List ℕ → List ℕ → Option (List ℕ)
after_first token [] = if starts_with token [] then some [] else none
after_first token (c ∷ s) =
    let rest = after_first token s in
    if starts_with token (c ∷ s) then some (after_token token (c ∷ s)) else rest

abbrev pub read_and_idx_bytes : List ℕ
read_and_idx_bytes = codes "Dispatcher_Client::request_read_and_idx::"

abbrev error_at_token : List ℕ → QueryError
error_at_token s =
    if starts_with (codes "timeout") s
    then timeout
    else if starts_with (codes "duplicate_query") s
    then dupe_query
    else unknown

abbrev error_of : Option (List ℕ) → Option QueryError
error_of none = none
error_of (some s) = some (error_at_token s)

unfoldable pub match_body_against_errors : List ℕ → Option QueryError
unfolding after_first
match_body_against_errors body = error_of (after_first read_and_idx_bytes body)

pub record Reply : Type 0 where
  pub status : ℕ
  pub body : Option (List ℕ)

pub data Answer (A : Type 0) : Type 0 where
  good : A → Answer A
  bad : QueryError → Answer A

module _ {A : Type 0} (parse : List ℕ → Option A) where
  abbrev matched_or : QueryError → Option QueryError → Answer A
  matched_or e none = bad e
  matched_or e (some matched) = bad matched

  abbrev parsed : List ℕ → Option A → Answer A
  unfolding match_body_against_errors
  parsed body none = matched_or bad_json (match_body_against_errors body)
  parsed body (some osm_data) = good osm_data

  abbrev read : ℕ → Option (List ℕ) → Answer A
  unfolding match_body_against_errors parsed
  read status none = bad not_read
  read status (some body) =
      if eqb status 200
      then parsed body (parse body)
      else matched_or bad_status (match_body_against_errors body)

  unfoldable pub do_single_query : Option Reply → Answer A
  unfolding read
  do_single_query none = bad not_sent
  do_single_query (some reply) = read reply.status reply.body

-- One try: what the query gives, and whether the context ends in the second after a timeout.
pub record Try (A : Type 0) : Type 0 where
  pub answer : Answer A
  pub context_ends : Bool

pub data Result (A : Type 0) : Type 0 where
  returned : A → Result A
  failed : QueryError → Result A
  still_trying : Result A

module _ {A : Type 0} where
  -- After a timeout it tries on, however often; after a duplicate only so many times.
  unfoldable pub query_loop : List (Try A) → (max_tries : ℕ) → Result A
  query_loop [] max_tries = still_trying
  query_loop (t ∷ tries) max_tries = elim t.answer [
    | good osm_data ↦ returned osm_data
    | bad e ↦ elim e [
      | timeout ↦ if t.context_ends then failed ended else query_loop tries max_tries
      | dupe_query ↦ elim max_tries [ zero ↦ failed dupe_query | suc left ↦ query_loop tries left ]
      | e' ↦ failed e'
    ]
  ]

  unfoldable pub get_possible_nest_locations : List (Try A) → Result A
  unfolding query_loop
  get_possible_nest_locations tries = query_loop tries 5
