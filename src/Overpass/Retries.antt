-- ===== src/Overpass/Retries.antt =====
-- How often overpass/client.go tries again.
use fletchling.Prelude.{ℕ, suc, ◌≡◌, refl, false, List, [], ◌∷◌, ◌++◌}
use fletchling.Overpass.{
  timeout, dupe_query, good, bad, Try, returned, failed, query_loop, get_possible_nest_locations,
}

module _ {A : Type 0} where
  abbrev pub good_try : A → Try A
  good_try osm_data = record { answer = good osm_data; context_ends = false }

  abbrev pub dupe_try : Try A
  dupe_try = record { answer = bad dupe_query; context_ends = false }

  -- Tries that are followed by another one: the number of tries that duplicates have left, before
  -- them and after them.
  pub data Retried : List (Try A) → ℕ → ℕ → Type 0 where
    no_try : (left : ℕ) → Retried [] left left
    timed_out :
        (tries : List (Try A)) (before left : ℕ)
        → Retried tries before left
        → Retried (record { answer = bad timeout; context_ends = false } ∷ tries) before left
    duplicate :
        (tries : List (Try A)) (before left : ℕ)
        → Retried tries before left
        → Retried (dupe_try ∷ tries) (suc before) left

  query_loop-rest :
      (tries rest : List (Try A)) (before left : ℕ)
      → Retried tries before left
      → query_loop (tries ++ rest) before ≡ query_loop rest left
  unfolding query_loop
  query_loop-rest _ rest _ _ (no_try _) = refl
  query_loop-rest _ rest _ _ (timed_out tries before left h) =
      query_loop-rest tries rest before left h
  query_loop-rest _ rest _ _ (duplicate tries before left h) =
      query_loop-rest tries rest before left h

  -- The first good answer is returned, whatever comes later, if there were only timeouts and at
  -- most five duplicates before it.
  pub get_possible_nest_locations-returns :
      (tries later : List (Try A)) (left : ℕ) (osm_data : A)
      → Retried tries 5 left
      → get_possible_nest_locations (tries ++ good_try osm_data ∷ later) ≡ returned osm_data
  unfolding get_possible_nest_locations query_loop
  get_possible_nest_locations-returns tries later left osm_data h =
      query_loop-rest tries (good_try osm_data ∷ later) 5 left h

  -- The sixth duplicate, with only timeouts between, is the end.
  pub get_possible_nest_locations_gives_up :
      (tries later : List (Try A))
      → Retried tries 5 0
      → get_possible_nest_locations (tries ++ dupe_try ∷ later) ≡ failed dupe_query
  unfolding get_possible_nest_locations query_loop
  get_possible_nest_locations_gives_up tries later h =
      query_loop-rest tries (dupe_try ∷ later) 5 0 h
