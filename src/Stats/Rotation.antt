-- ===== src/Stats/Rotation.antt =====
-- Rotate, GetSnapshot and FrozenStatsCollection of processor/stats.go. Percentages are floats of any
-- format `F`. A `none` among frozen periods is a nil pointer.
pub mod Begun
pub mod Sound
pub mod Spent
pub mod Frozen
pub mod Start
pub mod Snapshot
use mathlib.Core.Bool.{◌&&◌}
use fletchling.Prelude.{
  ℕ, zero, suc, Bool, true, Option, none, some, List, [], ◌∷◌, ◌++◌, map, if◌then◌else◌, ltb, eqb,
  ◌+ℤ◌, pos, Outcome, done, panic, bad_index, ◌>>=◌, unsnoc, length,
}
use fletchling.Prelude.Float.{Floats}
use fletchling.Prelude.Map.{Map}
use fletchling.Prelude.Time.{Time, Duration, time_sub}
use fletchling.Models.{PokemonKey}
use fletchling.Stats.Counts.{CountsByPokemon, entries}
use fletchling.Stats.Period
use fletchling.Stats.Period.{CountsForTimePeriod, new_counts_for_time_period, duration}
use fletchling.Stats.Collection.{
  StatsCollection, keep_recent_stats, first_start, spare_after_append,
}

pub record FrozenStatsCollection : Type 0 where
  pub total_duration : Duration
  pub counts : List (Option CountsForTimePeriod)
  pub totals : CountsForTimePeriod

abbrev no_pokemon : PokemonKey
no_pokemon = record { pokemon_id = pos 0; form_id = pos 0 }

-- The first entry with the largest count.
unfoldable pub largest_entry : Map PokemonKey ℕ → PokemonKey → ℕ → PokemonKey × ℕ
largest_entry [] best most = (best, most)
largest_entry ((k, n) ∷ rest) best most =
    largest_entry rest (if ltb most n then k else best) (if ltb most n then n else most)

-- `counts[idx] = nil` for the periods that were kept, in the array that an earlier slice still reads.
abbrev pub nil_after : ℕ → List CountsForTimePeriod → List (Option CountsForTimePeriod)
nil_after num [] = []
nil_after zero (p ∷ ps) = none ∷ nil_after zero ps
nil_after (suc num) (p ∷ ps) = some p ∷ nil_after num ps

-- What the frozen slice holds once `num` periods were purged behind it: if the appended period went
-- to the same array, the purge has overwritten the periods that it moved.
abbrev pub seen_by_frozen : ℕ → ℕ → List CountsForTimePeriod → List (Option CountsForTimePeriod)
seen_by_frozen (suc spare) (suc num) counts = nil_after (suc num) counts
seen_by_frozen spare num counts = map some counts

-- The last of the frozen periods, as the log of the last period reads it.
abbrev last_entry :
    Option (List (Option CountsForTimePeriod) × Option CountsForTimePeriod)
    → Outcome (Option CountsForTimePeriod)
last_entry none = panic bad_index
last_entry (some (front, last)) = done last

abbrev pub latest_entry : FrozenStatsCollection → Outcome (Option CountsForTimePeriod)
latest_entry f = last_entry (unsnoc f.counts)

-- No lock is needed for a period that is over.
abbrev pub end_period : Time → CountsForTimePeriod → CountsForTimePeriod
end_period now p = record p { end_time = some now; frozen = true }

module _ (F : Floats) where
  open F use {Float, of_ℕ, mul, div, lt}

  unfoldable pub most_spawning_pokemon : CountsByPokemon → PokemonKey × Float
  unfolding largest_entry
  most_spawning_pokemon c =
      if eqb c.total 0
      then (no_pokemon, of_ℕ 0)
      else (let (k, most) = largest_entry (entries c.by_pokemon) no_pokemon 0 in
          (k, div (mul (of_ℕ 100) (of_ℕ most)) (of_ℕ c.total)))

  -- Whether the period that ends is to be thrown away.
  unfoldable pub throws_away : Float → CountsByPokemon → Bool
  unfolding most_spawning_pokemon
  throws_away skip_pct c = lt (of_ℕ 0) skip_pct && lt skip_pct (most_spawning_pokemon c).1

  module _ (extra : ℕ → ℕ) where
    -- The current period is replaced, in place, by a new one.
    unfoldable pub throw_away :
        Time
        → Duration
        → StatsCollection
        → List CountsForTimePeriod
        → CountsForTimePeriod
        → Outcome (StatsCollection × Option FrozenStatsCollection)
    throw_away now max_history stats front latest = do
      totals ← Period.subtract stats.totals latest
      let counts = front ++ new_counts_for_time_period now ∷ []
      start ← first_start counts
      (stats', _, _) ←
          keep_recent_stats extra now max_history
            (record stats { totals = record totals { start_time = start }; counts = counts })
      done (stats', none)

    unfoldable pub freeze :
        Time
        → Duration
        → StatsCollection
        → List CountsForTimePeriod
        → CountsForTimePeriod
        → Outcome (StatsCollection × Option FrozenStatsCollection)
    freeze now max_history stats front latest = do
      let total = stats.total_duration +ℤ duration now latest
      let counts = front ++ latest ∷ []
      (stats', num, _) ← keep_recent_stats extra now max_history (record stats {
        total_duration = total;
        counts = counts ++ new_counts_for_time_period now ∷ [];
        spare = spare_after_append extra stats.spare (length counts);
      })
      done (
        stats',
        some (record {
          total_duration = total;
          counts = seen_by_frozen stats.spare num counts;
          totals = Period.clone now stats.totals;
        }),
      )

    unfoldable pub rotate_latest :
        Time
        → Duration
        → Float
        → StatsCollection
        → Option (List CountsForTimePeriod × CountsForTimePeriod)
        → Outcome (StatsCollection × Option FrozenStatsCollection)
    rotate_latest now max_history skip_pct stats none = panic bad_index
    rotate_latest now max_history skip_pct stats (some (front, latest)) =
        if throws_away skip_pct latest.global_counts
        then throw_away now max_history stats front (end_period now latest)
        else freeze now max_history stats front (end_period now latest)

    unfoldable pub rotate :
        Time
        → Duration
        → Float
        → StatsCollection
        → Outcome (StatsCollection × Option FrozenStatsCollection)
    unfolding throw_away freeze rotate_latest
    rotate now max_history skip_pct stats =
        rotate_latest now max_history skip_pct stats (unsnoc stats.counts)

-- The current period is cloned, with an end, and the clone takes its place in the array, which the
-- snapshot and the collection share.
unfoldable pub snapshot_latest :
    Time
    → StatsCollection
    → Option (List CountsForTimePeriod × CountsForTimePeriod)
    → Outcome (StatsCollection × FrozenStatsCollection)
snapshot_latest now stats none = panic bad_index
snapshot_latest now stats (some (front, latest)) = do
  let last_entry = Period.clone now latest
  let counts = front ++ last_entry ∷ []
  done (
    record stats { counts = counts },
    record {
      total_duration = stats.total_duration +ℤ time_sub now latest.start_time;
      counts = map some counts;
      totals = Period.clone now stats.totals;
    },
  )

unfoldable pub get_snapshot :
    Time → StatsCollection → Outcome (StatsCollection × FrozenStatsCollection)
unfolding snapshot_latest
get_snapshot now stats = snapshot_latest now stats (unsnoc stats.counts)
