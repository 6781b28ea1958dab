-- ===== src/Stats/Rotation/Snapshot.antt =====
-- GetSnapshot of processor/stats.go on a sound collection.
use fletchling.Prelude.{
  ◌≡◌, refl, ◌∙◌, some, [], ◌∷◌, ◌++◌, map, arith, ◌+ℤ◌, Outcome, done, unsnoc-snoc, int_eq,
}
use fletchling.Prelude.Time.{Time, time_sub}
use fletchling.Stats.Counts.Tally.{Cell}
use fletchling.Stats.Period
use fletchling.Stats.Period.{CountsForTimePeriod}
use fletchling.Stats.Period.Tally.{Scope, count}
use fletchling.Stats.Period.Copy.{count-clone, clone-IsPeriod, count-clone_totals}
use fletchling.Stats.Collection.{StatsCollection}
use fletchling.Stats.Collection.Balance.{sum_counts, sum_counts-append, sum_lengths}
use fletchling.Stats.Collection.Sound.{IsSound}
use fletchling.Stats.Rotation.{FrozenStatsCollection, snapshot_latest, get_snapshot}

-- A snapshot of what was counted that shares its periods with the collection.
pub record Snapshots (r : Outcome (StatsCollection × FrozenStatsCollection)) (now : Time)
    (stats : StatsCollection) (h : IsSound stats) : Type 0 where
  pub after : StatsCollection
  pub taken : FrozenStatsCollection
  pub result : r ≡ done (after, taken)
  pub sound : IsSound after
  pub same_past : sound.past ≡ h.past
  pub same_counts : (s : Scope) (x : Cell) → count s x sound.current ≡ count s x h.current
  pub current_ended : sound.current.end_time ≡ some now
  pub shared : taken.counts ≡ map some after.counts
  pub totals : (s : Scope) (x : Cell) → count s x taken.totals ≡ sum_counts s x after.counts
  pub lengths : taken.total_duration ≡ sum_lengths h.past +ℤ time_sub now h.current.start_time

-- On a sound collection, GetSnapshot returns totals that count what all the periods count and the
-- duration of the past and of the current period so far; it leaves a sound collection with the
-- same past and the same counts in the current period, but which shares its periods with the
-- snapshot and whose current period has an end.
pub get_snapshot-Snapshots :
    (now : Time) (stats : StatsCollection) (h : IsSound stats)
    → Snapshots (get_snapshot now stats) now stats h
unfolding get_snapshot snapshot_latest Period.clone
get_snapshot-Snapshots now stats h =
    let last_entry = Period.clone now h.current in
    let balanced : (s : Scope) (x : Cell)
        → count s x stats.totals ≡ sum_counts s x (h.past ++ last_entry ∷ []) =
      λ s x. omega (
        arith,
        h.balanced.sums s x,
        count-clone now h.current h.current_ok s x,
        sum_counts-append s x h.past (h.current ∷ []),
        sum_counts-append s x h.past (last_entry ∷ []),
      ) in
    record {
      after = record stats { counts = h.past ++ last_entry ∷ [] };
      taken = record {
        total_duration = stats.total_duration +ℤ time_sub now h.current.start_time;
        counts = map some (h.past ++ last_entry ∷ []);
        totals = Period.clone now stats.totals;
      };
      result = rw (h.counts, unsnoc-snoc h.past h.current) refl;
      sound = record {
        past = h.past;
        current = last_entry;
        counts = refl;
        past_ok = h.past_ok;
        ended = h.ended;
        current_ok = clone-IsPeriod now h.current h.current_ok;
        thawed = refl;
        totals_thawed = h.totals_thawed;
        balanced = record { totals = h.balanced.totals; sums = balanced };
        lengths = h.lengths;
      };
      same_past = refl;
      same_counts = count-clone now h.current h.current_ok;
      current_ended = refl;
      shared = refl;
      totals = λ s x. count-clone_totals now stats.totals h.balanced.totals s x ∙ balanced s x;
      lengths = rw h.lengths refl;
    }
