-- ===== src/Stats/Period.antt =====
-- CountsForTimePeriod of processor/stats.go. A nest id is what `AddPokemon` reads of a nest. The
-- period's own mutex is left out: every operation here runs under it or under that of the collection.
pub mod Tally
pub mod Adding
pub mod Subtraction
pub mod Copy
use fletchling.Prelude.{
  ℕ, ◌+◌, Bool, true, false, Option, none, some, List, [], ◌∷◌, if◌then◌else◌, ℤ, int_eq, Outcome,
  done, panic, nil_pointer, ◌>>=◌,
}
use fletchling.Prelude.Map
use fletchling.Prelude.Map.{Map}
use fletchling.Prelude.Time.{Time, Duration, time_sub, truncate, minute}
use fletchling.Models.{PokemonKey}
use fletchling.Stats.Counts
use fletchling.Stats.Counts.{CountsByPokemon, new_counts_by_pokemon}

pub record CountsForTimePeriod : Type 0 where
  pub frozen : Bool
  pub start_time : Time
  pub end_time : Option Time
  pub nest_counts : Map ℤ CountsByPokemon
  pub global_counts : CountsByPokemon

abbrev pub new_counts_for_time_period : Time → CountsForTimePeriod
new_counts_for_time_period start = record {
  frozen = false;
  start_time = start;
  end_time = none;
  nest_counts = [];
  global_counts = new_counts_by_pokemon;
}

-- `now` is read only if the period has not ended.
abbrev end_or_now : Time → Option Time → Time
end_or_now now none = now
end_or_now now (some t) = t

unfoldable pub duration : Time → CountsForTimePeriod → Duration
duration now p = truncate (time_sub (end_or_now now p.end_time) p.start_time) minute

abbrev pub counts_or_new : Option CountsByPokemon → CountsByPokemon
counts_or_new none = new_counts_by_pokemon
counts_or_new (some c) = c

unfoldable pub add_to_nest :
    PokemonKey → ℤ → Map ℤ CountsByPokemon → Outcome (Map ℤ CountsByPokemon)
add_to_nest k id nests = do
  c ← Counts.increment k (counts_or_new (Map.lookup id nests))
  done (Map.insert id c nests)

-- The loop over the matched nests.
unfoldable pub add_to_nests :
    PokemonKey → List ℤ → Map ℤ CountsByPokemon → Outcome (Map ℤ CountsByPokemon)
unfolding add_to_nest
add_to_nests k [] nests = done nests
add_to_nests k (id ∷ ids) nests = do nests' ← add_to_nest k id nests; add_to_nests k ids nests'

-- False if the period is frozen, and then nothing is counted.
unfoldable pub add_pokemon :
    PokemonKey → List ℤ → CountsForTimePeriod → Outcome (CountsForTimePeriod × Bool)
unfolding add_to_nests
add_pokemon k ids p = if p.frozen then done (p, false) else do
  global ← Counts.increment k p.global_counts
  nests ← add_to_nests k ids p.nest_counts
  done (record p { global_counts = global; nest_counts = nests }, true)

-- A nest that the totals do not know is a nil pointer. One that is empty afterwards goes.
subtract_found :
    ℤ
    → CountsByPokemon
    → Map ℤ CountsByPokemon
    → Option CountsByPokemon
    → Outcome (Map ℤ CountsByPokemon)
subtract_found id other nests none = panic nil_pointer
subtract_found id other nests (some c) = do
  (left, empty) ← Counts.subtract c other
  done (if empty then Map.delete id nests else Map.insert id left nests)

unfoldable pub subtract_nest :
    ℤ → CountsByPokemon → Map ℤ CountsByPokemon → Outcome (Map ℤ CountsByPokemon)
unfolding subtract_found
subtract_nest id other nests = subtract_found id other nests (Map.lookup id nests)

unfoldable pub subtract_nests :
    Map ℤ CountsByPokemon → Map ℤ CountsByPokemon → Outcome (Map ℤ CountsByPokemon)
unfolding subtract_nest
subtract_nests [] nests = done nests
subtract_nests ((id, other) ∷ others) nests = do
  nests' ← subtract_nest id other nests
  subtract_nests others nests'

-- Whether the global counts are empty afterwards is not looked at, so they stay, with a nil map.
unfoldable pub subtract : CountsForTimePeriod → CountsForTimePeriod → Outcome CountsForTimePeriod
unfolding subtract_nests
subtract p other = do
  (global, _) ← Counts.subtract p.global_counts other.global_counts
  nests ← subtract_nests other.nest_counts p.nest_counts
  done (record p { global_counts = global; nest_counts = nests })

clone_nests : Map ℤ CountsByPokemon → Map ℤ CountsByPokemon → Map ℤ CountsByPokemon
clone_nests [] m = m
clone_nests ((id, c) ∷ rest) m = clone_nests rest (Map.insert id (Counts.clone c) m)

unfoldable pub clone : Time → CountsForTimePeriod → CountsForTimePeriod
unfolding clone_nests
clone end p = record {
  frozen = false;
  start_time = p.start_time;
  end_time = some end;
  nest_counts = clone_nests p.nest_counts [];
  global_counts = Counts.clone p.global_counts;
}
