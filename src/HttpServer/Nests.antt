-- ===== src/HttpServer/Nests.antt =====
-- The handlers of httpserver/api_nests.go. The nests are those of the manager at that moment.
use fletchling.Prelude.{
  ℕ, ◌-◌, ◌^◌, ℤ, negsuc, int_eq, string_eq, Bool, true, false, Option, none, some, List, [], ◌∷◌,
  map, String, if◌then◌else◌, ◌==◌, Outcome, done, panic, nil_pointer, ◌>>=◌,
}
use fletchling.Prelude.Float.{Floats}
use fletchling.Prelude.Map
use fletchling.Prelude.Time.{Time, Duration, second, time_sub, quot}
use fletchling.Prelude.Word.{u64_of_ℤ}
use fletchling.Geo.{parse_int}
use fletchling.Models.Nest.{Nest, NestingPokemonInfo}
use fletchling.Stats.Counts.{CountsByPokemon}
use fletchling.Stats.Period.{CountsForTimePeriod, counts_or_new}
use fletchling.Stats.Collection.{StatsCollection}
use fletchling.Stats.Rotation.{FrozenStatsCollection, get_snapshot}
use fletchling.HttpServer.{Response, status_ok, bad_request, not_found}

module _ (F : Floats) (Geometry : Type 0) where
  pub record ApiNest : Type 0 where
    pub id : ℤ
    pub name : String
    pub lat : F.Float
    pub lon : F.Float
    pub geometry : Option Geometry
    pub area_name : Option String
    pub spawnpoints : Option ℤ
    pub area_m2 : F.Float
    pub active : Bool
    pub discarded : Option String
    pub updated_at : Option Time
    pub nesting_pokemon : Option (NestingPokemonInfo F)

  unfoldable pub nest_to_api_nest : Nest F Geometry → Bool → ApiNest
  nest_to_api_nest nest include_geometry = record {
    id = nest.id;
    name = nest.name;
    lat = nest.lat;
    lon = nest.lon;
    geometry = if include_geometry then some nest.geometry else none;
    area_name = nest.area_name;
    spawnpoints = nest.spawnpoints;
    area_m2 = nest.area_m2;
    active = nest.active;
    discarded = if nest.active then none else some nest.discarded;
    updated_at = nest.stats_info.updated_at;
    nesting_pokemon = nest.stats_info.nesting_pokemon;
  }

  unfoldable pub handle_get_nests : List (Nest F Geometry) → Response (List ApiNest)
  unfolding nest_to_api_nest
  handle_get_nests nests = status_ok (map (λ nest. nest_to_api_nest nest false) nests)

  module _ (get_nest_by_id : ℤ → Option (Nest F Geometry)) where
    -- The nest of a parameter, or the response that tells what is wrong with it.
    abbrev pub one_nest {ℓ} : {A : Type ℓ} → Option ℤ → (Nest F Geometry → Response A) → Response A
    one_nest none k = bad_request "malformed nest ID"
    one_nest (some id) k = elim (get_nest_by_id id) [
      | none ↦ not_found "Nest not found"
      | some nest ↦ k nest
    ]

    unfoldable pub handle_get_nest : String → Response ApiNest
    unfolding nest_to_api_nest parse_int
    handle_get_nest nest_id =
        one_nest (parse_int nest_id) (λ nest. status_ok (nest_to_api_nest nest true))

  pub record ApiStatsTimePeriod : Type 0 where
    pub start_time : Time
    pub end_time : Option Time
    pub duration_seconds : ℕ
    pub pokemon_counts : CountsByPokemon

  pub record ApiNestStatsTimePeriods : Type 0 where
    pub nest : ApiNest
    pub time_periods : List ApiStatsTimePeriod

  pub record ApiNestStats : Type 0 where
    pub duration_seconds : ℕ
    pub nest_stats : List ApiNestStatsTimePeriods
    pub global_time_periods : List (Option ApiStatsTimePeriod)

  -- `end.Sub(start)`: the zero time is further away than a time.Duration can tell.
  abbrev pub length_of : Option Time → Time → Duration
  length_of none start = negsuc (2 ^ 63 - 1)
  length_of (some end) start = time_sub end start

  abbrev pub whole_seconds : Duration → ℕ
  whole_seconds d = u64_of_ℤ (quot d second)

  abbrev pub api_period : CountsForTimePeriod → CountsByPokemon → ApiStatsTimePeriod
  api_period tp counts = record {
    start_time = tp.start_time;
    end_time = tp.end_time;
    duration_seconds = whole_seconds (length_of tp.end_time tp.start_time);
    pokemon_counts = counts;
  }

  -- The periods of one nest. A period that is nil is a fault.
  unfoldable pub nest_periods :
      ℤ → List (Option CountsForTimePeriod) → Outcome (List ApiStatsTimePeriod)
  nest_periods id [] = done []
  nest_periods id (none ∷ tps) = panic nil_pointer
  nest_periods id (some tp ∷ tps) = do
    rest ← nest_periods id tps
    done (api_period tp (counts_or_new (Map.lookup id tp.nest_counts)) ∷ rest)

  abbrev pub global_period : Option CountsForTimePeriod → Option ApiStatsTimePeriod
  global_period none = none
  global_period (some tp) = some (api_period tp tp.global_counts)

  unfoldable pub all_nest_periods :
      List (Nest F Geometry)
      → List (Option CountsForTimePeriod)
      → Outcome (List ApiNestStatsTimePeriods)
  unfolding nest_periods nest_to_api_nest
  all_nest_periods [] tps = done []
  all_nest_periods (nest ∷ nests) tps = do
    time_periods ← nest_periods nest.id tps
    rest ← all_nest_periods nests tps
    done (record { nest = nest_to_api_nest nest false; time_periods = time_periods } ∷ rest)

  -- The global periods are filled in while the first nest is looked at.
  abbrev pub global_periods :
      List (Nest F Geometry) → List (Option CountsForTimePeriod) → List (Option ApiStatsTimePeriod)
  global_periods [] tps = map (λ tp. none) tps
  global_periods (nest ∷ nests) tps = map global_period tps

  unfoldable pub nest_stats : List (Nest F Geometry) → FrozenStatsCollection → Outcome ApiNestStats
  unfolding all_nest_periods
  nest_stats nests stats = do
    periods ← all_nest_periods nests stats.counts
    done (record {
      duration_seconds = whole_seconds stats.total_duration;
      nest_stats = periods;
      global_time_periods = global_periods nests stats.counts;
    })

  abbrev pub stats_of_some :
      Time
      → StatsCollection
      → Response (List (Nest F Geometry))
      → Outcome (StatsCollection × Response ApiNestStats)
  unfolding get_snapshot nest_stats
  stats_of_some now stats (status_ok nests) = do
    (stats', snapshot) ← get_snapshot now stats
    answer ← nest_stats nests snapshot
    done (stats', status_ok answer)
  stats_of_some now stats (bad_request e) = done (stats, bad_request e)
  stats_of_some now stats (not_found e) = done (stats, not_found e)
  stats_of_some now stats (Response.internal_error e) = done (stats, Response.internal_error e)

  -- Without an id, of all nests. The source names the list of one nest `nest_stats`.
  unfoldable pub handle_get_nest_stats :
      (ℤ → Option (Nest F Geometry))
      → List (Nest F Geometry)
      → String
      → Time
      → StatsCollection
      → Outcome (StatsCollection × Response ApiNestStats)
  unfolding parse_int get_snapshot nest_stats
  handle_get_nest_stats get_nest_by_id nests nest_id now stats = stats_of_some now stats (
      if nest_id == ""
      then status_ok nests
      else one_nest get_nest_by_id (parse_int nest_id) (λ nest. status_ok (nest ∷ [])))
