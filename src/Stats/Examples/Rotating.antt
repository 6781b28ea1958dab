-- ===== src/Stats/Examples/Rotating.antt =====
-- The theorems about rotations, snapshots and summaries of processor/stats.go applied to the same
-- collection.
use fletchling.Prelude.{
  length, ℕ, ◌≡◌, refl, ap, ◌∙◌, Bool, none, some, List, [], ◌∷◌, ◌++◌, arith, pos, int_laws,
  int_eq, done, true, false, panic, nil_map, ltb_ℤ,
}
use fletchling.Prelude.Float.{fractions, Ratio}
use fletchling.Prelude.Map
use fletchling.Prelude.Time.{hour}
use fletchling.Models.{key_eq}
use fletchling.Stats.Counts.Tally.{all}
use fletchling.Stats.Period.{CountsForTimePeriod}
use fletchling.Stats.Period.Tally.{world}
use fletchling.Stats.Collection.{StatsCollection, add_pokemon}
use fletchling.Stats.Collection.Balance.{sum_counts}
use fletchling.Stats.Rotation.{
  FrozenStatsCollection, throws_away, most_spawning_pokemon, largest_entry, rotate, get_snapshot,
  end_period,
}
use fletchling.Stats.Rotation.Sound.{Rotates, IsHanded, rotate_kept, rotate_thrown}
use fletchling.Stats.Rotation.Spent.{rotate_thrown_panics}
use fletchling.Stats.Rotation.Snapshot.{Snapshots, get_snapshot-Snapshots}
use fletchling.Stats.Summary.{get_summary_for_nest}
use fletchling.Stats.Summary.Faithful.{Summarizes, get_summary_for_nest-Summarizes}
use fletchling.Processor.Config.{get_default_config, validate}
use fletchling.Processor.Rotating.{IsRotated, rotate_stats, rotate_stats-IsRotated}
use fletchling.Models.Summary.{NestPokemonCountAndTotal}
use fletchling.Prelude.Int.{eqb_ℤ}
use fletchling.Prelude.Map.{lookup-nil}
use fletchling.Prelude.Int.{◌+ℤ◌}
use fletchling.Prelude.Time.{truncate, time_sub}
use fletchling.Stats.Period.{duration}
use fletchling.Stats.Reach.{start, next, overlap, add, Balances, Reach-Balances}
use fletchling.Stats.Overlap.{Loses, add_pokemon_around_snapshot, add_pokemon_around_snapshot-Loses}
use fletchling.Stats.Counts.Tally.{Cell, IsLive}
use fletchling.Stats.Period
use fletchling.Stats.Period.Tally.{Scope, count}
use fletchling.Stats.Rotation.{snapshot_latest}
use fletchling.Stats.Collection.Adding.{gain-le}
use fletchling.Stats.Rotation.Begun.{count_new}
use fletchling.Prelude.{◌+◌, ◌<◌, Outcome, subst, sym, length}
use fletchling.Prelude.Word.{u64_mod, inc64}
use fletchling.Stats.Counts
use fletchling.Models.{eqb_key}
use fletchling.Prelude.Lists.{unsnoc}
use fletchling.Stats.Examples.{
  pikachu, park, empty_stats, one_added, after_adding, one_pikachu, one_period, one_stats, room_for,
  one_stats-eq, one_stats-IsSound, one_stats-past, one_stats-current, doubled, half_day, percent,
}

throws_away_tests :
    (throws_away fractions (percent 40) one_pikachu ≡ true)
    × (throws_away fractions (percent 0) one_pikachu ≡ false)
unfolding throws_away most_spawning_pokemon largest_entry
throws_away_tests = (refl, refl)

abbrev throws_now : Ratio → CountsForTimePeriod → Bool
throws_now pct p = throws_away fractions pct p.global_counts

thrown : throws_away fractions (percent 40) one_stats-IsSound.current.global_counts ≡ true
thrown = ap (throws_now (percent 40)) one_stats-current ∙ throws_away_tests.0

not_thrown : throws_away fractions (percent 0) one_stats-IsSound.current.global_counts ≡ false
not_thrown = ap (throws_now (percent 0)) one_stats-current ∙ throws_away_tests.1

rotate_kept_example :
    (f : FrozenStatsCollection) × (r : Rotates
      (rotate fractions doubled hour half_day (percent 0) one_stats)
      hour
      half_day
      (one_stats-IsSound.past ++ end_period hour one_stats-IsSound.current ∷ [])
      (some f))
    × IsHanded hour one_stats one_stats-IsSound f (length r.dropped)
rotate_kept_example =
    rotate_kept fractions doubled hour half_day (omega int_laws) one_stats one_stats-IsSound
      (percent 0) not_thrown

rotate_thrown_example :
    Rotates
      (rotate fractions doubled hour half_day (percent 40) one_stats)
      hour
      half_day
      one_stats-IsSound.past
      none
rotate_thrown_example =
    rotate_thrown fractions doubled hour half_day (omega int_laws) one_stats one_stats-IsSound
      (percent 40) thrown

rotate_thrown_panics_example :
    (after : StatsCollection) × (rotate fractions doubled hour half_day (percent 40) one_stats
      ≡ done (after, none))
    × (add_pokemon pikachu park after ≡ panic nil_map)
rotate_thrown_panics_example =
    rotate_thrown_panics fractions doubled hour half_day (omega int_laws) one_stats
      one_stats-IsSound (percent 40) pikachu park thrown (ap (sum_counts world all) one_stats-past)
      (omega int_laws) (omega arith)

get_snapshot-Snapshots_example :
    Snapshots (get_snapshot hour one_stats) hour one_stats one_stats-IsSound
get_snapshot-Snapshots_example = get_snapshot-Snapshots hour one_stats one_stats-IsSound

one_stats-IsLive : IsLive one_stats.totals.global_counts
one_stats-IsLive = ((pikachu, 1) ∷ [], refl, (lookup-nil pikachu, tt))

room_left : (s : Scope) (x : Cell) → count s x one_stats.totals + 2 < u64_mod
room_left s x =
    subst (λ t. count s x t.totals + 2 < u64_mod) same
      (omega (arith, one_added.in_totals s x, count_new 0 s x, gain-le s x pikachu park))
  where
    same : one_added.after ≡ one_stats
    same = ap after_adding (sym one_added.result ∙ one_stats-eq)

one_lost : Loses (add_pokemon_around_snapshot hour pikachu park one_stats) pikachu park
one_lost =
    add_pokemon_around_snapshot-Loses hour pikachu park one_stats one_stats-IsSound one_stats-IsLive
      room_left

Reach-Balances_example : Balances fractions doubled (some (pikachu, park)) one_lost.after
Reach-Balances_example = Reach-Balances fractions doubled (some (pikachu, park)) one_lost.after (
    overlap one_stats one_lost.after hour pikachu park one_lost.taken true
      (next empty_stats one_stats (start 0)
        (add empty_stats one_stats pikachu park true (room_for 2 (omega arith)) one_stats-eq))
      one_stats-IsLive room_left one_lost.result)

-- The pikachu that is added while a snapshot is taken is the second of the totals, but the periods
-- keep one.
abbrev counted_pikachus : Outcome (StatsCollection × FrozenStatsCollection × Bool) → ℕ × ℕ
counted_pikachus (done (s, f, counted)) = (count world all s.totals, sum_counts world all s.counts)
counted_pikachus (panic f) = (0, 0)

lost_pikachu : counted_pikachus (add_pokemon_around_snapshot hour pikachu park one_stats) ≡ (2, 1)
unfolding add_pokemon_around_snapshot get_snapshot snapshot_latest Period.clone Period.add_pokemon
    Counts.clone Counts.increment Map.lookup Map.insert inc64 eqb_key eqb_ℤ unsnoc
lost_pikachu = refl

park_found : Map.lookup (pos 7) one_period.nest_counts ≡ some one_pikachu
unfolding Map.lookup eqb_ℤ
park_found = refl

-- A list of one entry is in order.
abbrev in_order : List NestPokemonCountAndTotal → List (ℕ × ℕ)
in_order list = []

get_summary_for_nest-Summarizes_example :
    Summarizes
      (get_summary_for_nest in_order (pos 7) half_day one_period)
      one_pikachu
      one_period
      half_day
get_summary_for_nest-Summarizes_example =
    get_summary_for_nest-Summarizes in_order (pos 7) half_day one_period one_pikachu park_found
      ((pikachu, 1) ∷ [], refl, (lookup-nil pikachu, tt))

default_passes : validate (get_default_config fractions) ≡ none
unfolding validate
default_passes = refl

rotate_stats-IsRotated_example :
    IsRotated fractions doubled hour
      (get_default_config fractions)
      (rotate_stats fractions doubled hour (get_default_config fractions) one_stats)
rotate_stats-IsRotated_example =
    rotate_stats-IsRotated fractions doubled hour (get_default_config fractions) one_stats
      default_passes one_stats-IsSound

abbrev fits_half_day : CountsForTimePeriod → Bool
fits_half_day p = ltb_ℤ (pos 0 +ℤ duration hour p) half_day

one_hour : fits_half_day one_period ≡ true
unfolding duration truncate time_sub ◌+ℤ◌
one_hour = refl
