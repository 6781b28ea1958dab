-- ===== src/Stats/Examples/Purging.antt =====
-- The purges of processor/stats.go of a collection with an hour that is over and the current period.
use mathlib.Core.List.{reverse}
use fletchling.Prelude.{
  ℕ, ◌*◌, ◌≡◌, refl, pos, ◌≤ℤ◌, int_laws, Outcome, done, panic, true, false, ltb_ℤ, ◌⊎◌, length,
}
use fletchling.Prelude.Lists.{unsnoc}
use fletchling.Prelude.Int.{◌+ℤ◌, ◌-ℤ◌}
use fletchling.Prelude.Time.{Duration, hour, truncate, time_sub}
use fletchling.Prelude.Word.{sub64}
use fletchling.Stats.Counts
use fletchling.Stats.Period
use fletchling.Stats.Period.{duration, subtract_nests}
use fletchling.Stats.Collection.{
  StatsCollection, keep_recent_stats, purge_oldest_stats, purge_newest_stats, purge_newest_loop,
  drop_period,
}
use fletchling.Stats.Collection.Kept.{
  from_front, from_back, Stops, WasNeeded, oldest_of, DidFit, StopsAt,
}
use fletchling.Stats.Collection.Sound.{Retains}
use fletchling.Stats.Collection.Purges.{
  keep_recent_stats-Retains, purge_oldest_stats-Retains, purge_newest_stats-Retains,
}
use fletchling.Stats.Examples.Frozen.{doubled, rotated_once, rotated_once-IsSound}

-- How many periods were purged, for how long, and how many there are.
abbrev purged : Outcome (StatsCollection × ℕ × Duration) → ℕ × Duration × ℕ
purged (done (s, num, length_purged)) = (num, length_purged, length s.counts)
purged (panic f) = (0, pos 0, 0)

-- The call of the handler that purges all: the hour goes, the current period stays.
all_purged : purged (keep_recent_stats doubled (2 * hour) (pos 0) rotated_once) ≡ (1, pos hour, 1)
unfolding keep_recent_stats drop_period Period.subtract Counts.subtract sub64 duration truncate
    time_sub ◌+ℤ◌ ◌-ℤ◌ unsnoc
all_purged = refl

newest_purged :
    purged (purge_newest_stats doubled (2 * hour) (pos (2 * hour)) false rotated_once)
    ≡ (1, pos hour, 1)
unfolding purge_newest_stats purge_newest_loop drop_period Period.subtract Counts.subtract sub64
    duration truncate time_sub ◌+ℤ◌ ◌-ℤ◌ unsnoc
newest_purged = refl

newest_too_long :
    purged (purge_newest_stats doubled (2 * hour) (pos hour) false rotated_once) ≡ (0, pos 0, 2)
unfolding purge_newest_stats purge_newest_loop drop_period Period.subtract Counts.subtract sub64
    duration truncate time_sub ◌+ℤ◌ ◌-ℤ◌ unsnoc
newest_too_long = refl

keep_recent_stats-Retains_example :
    (r : Retains from_front
      (keep_recent_stats doubled (2 * hour) (pos 0) rotated_once)
      rotated_once-IsSound.past
      rotated_once-IsSound.current)
    × (r.after.total_duration ≤ℤ pos 0)
    × WasNeeded (pos 0) r.after.total_duration r.dropped
keep_recent_stats-Retains_example =
    keep_recent_stats-Retains rotated_once rotated_once-IsSound doubled (2 * hour) (pos 0)
      (omega int_laws)

purge_oldest_stats-Retains_example :
    (r : Retains from_front
      (purge_oldest_stats (2 * hour) (pos (2 * hour)) rotated_once)
      rotated_once-IsSound.past
      rotated_once-IsSound.current)
    × ((r.num ≡ 0) ⊎ (ltb_ℤ r.purged (pos (2 * hour)) ≡ true))
    × Stops (2 * hour) (pos (2 * hour)) r.purged r.sound.past
purge_oldest_stats-Retains_example =
    purge_oldest_stats-Retains rotated_once rotated_once-IsSound doubled (2 * hour) (pos (2 * hour))

purge_newest_stats-Retains_example :
    (r : Retains from_back
      (purge_newest_stats doubled (2 * hour) (pos (2 * hour)) false rotated_once)
      rotated_once-IsSound.past
      rotated_once-IsSound.current)
    × DidFit
        (pos (2 * hour))
        (oldest_of (2 * hour) rotated_once-IsSound.past)
        (pos 0)
        (reverse r.dropped)
    × StopsAt
        (pos (2 * hour))
        (oldest_of (2 * hour) rotated_once-IsSound.past)
        r.purged
        r.sound.past
purge_newest_stats-Retains_example =
    purge_newest_stats-Retains rotated_once rotated_once-IsSound doubled (2 * hour) (pos (2 * hour))
