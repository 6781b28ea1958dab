-- ===== src/Stats/Examples/Frozen.antt =====
-- Two rotations of a collection of processor/stats.go that has counted nothing, of which the second
-- drops the first period.
use fletchling.Prelude.{
  ℕ, suc, ◌*◌, ◌≡◌, refl, sym, ap, ◌∙◌, subst, Option, none, some, [], ◌∷◌, arith, int_laws, pos,
  Outcome, done, panic, false, Bool,
}
use fletchling.Prelude.Lists.{unsnoc}
use fletchling.Prelude.Int.{◌+ℤ◌, ◌-ℤ◌}
use fletchling.Prelude.Float.{fractions, Ratio}
use fletchling.Prelude.Time.{hour, truncate, time_sub}
use fletchling.Prelude.Word.{sub64}
use fletchling.Stats.Counts
use fletchling.Stats.Counts.{CountsByPokemon, new_counts_by_pokemon}
use fletchling.Stats.Period
use fletchling.Stats.Period.{
  CountsForTimePeriod, new_counts_for_time_period, duration, subtract_nests,
}
use fletchling.Stats.Collection.{
  StatsCollection, new_stats_collection, keep_recent_stats, drop_period,
}
use fletchling.Stats.Collection.Sound.{IsSound}
use fletchling.Stats.Rotation.{FrozenStatsCollection, rotate, throws_away, end_period, latest_entry}
use fletchling.Stats.Rotation.Sound.{rotate_kept}
use fletchling.Stats.Rotation.Start.{new_stats_collection-IsSound, current-eq}
use fletchling.Stats.Rotation.Frozen.{rotate-latest_entry}

abbrev pub doubled : ℕ → ℕ
doubled n = suc n

abbrev none_percent : Ratio
none_percent = record { num = 0; den = 1 }

abbrev pub first_period : CountsForTimePeriod
first_period = end_period hour (new_counts_for_time_period 0)

abbrev second_period : CountsForTimePeriod
second_period = end_period (2 * hour) (new_counts_for_time_period hour)

abbrev pub rotated_once : StatsCollection
rotated_once = record {
  totals = new_counts_for_time_period 0;
  total_duration = pos hour;
  counts = first_period ∷ new_counts_for_time_period hour ∷ [];
  spare = 6;
}

abbrev handed_once : FrozenStatsCollection
handed_once = record {
  total_duration = pos hour;
  counts = some first_period ∷ [];
  totals = Period.clone hour (new_counts_for_time_period 0);
}

abbrev rotated_twice : StatsCollection
rotated_twice = record {
  totals = record (new_counts_for_time_period hour) {
    global_counts = record { total = 0; by_pokemon = none };
  };
  total_duration = pos hour;
  counts = second_period ∷ new_counts_for_time_period (2 * hour) ∷ [];
  spare = 0;
}

abbrev handed_twice : FrozenStatsCollection
handed_twice = record {
  total_duration = pos (2 * hour);
  counts = some first_period ∷ none ∷ [];
  totals = Period.clone (2 * hour) (new_counts_for_time_period 0);
}

never_thrown : throws_away fractions none_percent new_counts_by_pokemon ≡ false
unfolding throws_away
never_thrown = refl

once :
    rotate fractions doubled hour (pos hour) none_percent (new_stats_collection 0)
    ≡ done (rotated_once, some handed_once)
unfolding rotate throws_away keep_recent_stats duration truncate time_sub ◌+ℤ◌ unsnoc
once = refl

twice :
    rotate fractions doubled (2 * hour) (pos hour) none_percent rotated_once
    ≡ done (rotated_twice, some handed_twice)
unfolding rotate throws_away keep_recent_stats duration truncate time_sub ◌+ℤ◌ ◌-ℤ◌ unsnoc
    drop_period Period.subtract Counts.subtract sub64
twice = refl

abbrev throws_now : CountsForTimePeriod → Bool
throws_now p = throws_away fractions none_percent p.global_counts

abbrev after_rotating : Outcome (StatsCollection × Option FrozenStatsCollection) → StatsCollection
after_rotating (done (stats, f)) = stats
after_rotating (panic e) = rotated_once

pub rotated_once-IsSound : IsSound rotated_once
rotated_once-IsSound =
    let h = new_stats_collection-IsSound 0 in
    let (f, r, _) =
      rotate_kept fractions doubled hour (pos hour) (omega int_laws) (new_stats_collection 0) h
        none_percent
        (ap throws_now
            (current-eq (new_stats_collection 0) h [] (new_counts_for_time_period 0) refl)
          ∙ never_thrown) in
    subst IsSound (ap after_rotating (sym r.result ∙ once)) r.sound

kept_again : throws_away fractions none_percent rotated_once-IsSound.current.global_counts ≡ false
kept_again =
    ap throws_now (
      current-eq rotated_once rotated_once-IsSound (first_period ∷ [])
        (new_counts_for_time_period hour) refl)
    ∙ never_thrown

rotate-latest_entry_example : latest_entry handed_twice ≡ done none
rotate-latest_entry_example =
    rotate-latest_entry fractions doubled (2 * hour) (pos hour) (omega int_laws) rotated_once
      rotated_once-IsSound none_percent rotated_twice handed_twice kept_again twice (omega arith)
      (omega arith) (omega arith)
