-- ===== src/Stats/Rotation/Sound.antt =====
-- Rotate of processor/stats.go on a sound collection.
use fletchling.Prelude.{
  ℕ, ◌≡◌, refl, ap, ◌∙◌, Option, none, some, List, [], ◌∷◌, ◌++◌, arith, pos, ◌+ℤ◌, ◌≤ℤ◌, int_laws,
  Outcome, done, All-append, false, true, length, unsnoc-snoc, int_eq,
}
use fletchling.Prelude.Int.{parts}
use fletchling.Prelude.Float.{Floats}
use fletchling.Prelude.Time.{Time, Duration}
use fletchling.Stats.Counts.Tally.{Cell}
use fletchling.Stats.Period
use fletchling.Stats.Period.{CountsForTimePeriod, new_counts_for_time_period, duration}
use fletchling.Stats.Period.Tally.{Scope, count, IsPeriod}
use fletchling.Stats.Period.Subtraction.{Remainder, subtract-Remainder}
use fletchling.Stats.Period.Copy.{count-clone_totals}
use fletchling.Stats.Collection.{StatsCollection, spare_after_append}
use fletchling.Stats.Collection.Balance.{
  IsEnded, sum_counts, sum_counts-append, sum_counts-below, sum_lengths, sum_lengths-append,
  duration-IsEnded,
}
use fletchling.Stats.Collection.Sound.{IsSound, IsBalanced-start, first_start-snoc}
use fletchling.Stats.Collection.Purges.{keep_recent_stats-Retains}
use fletchling.Stats.Rotation.{
  FrozenStatsCollection, seen_by_frozen, throws_away, end_period, rotate,
}
use fletchling.Stats.Rotation.Begun.{end_period-count, end_period-IsPeriod, begun, begun-IsSound}

-- A rotation that begins a new period behind `past` and drops the oldest of those.
pub record Rotates (r : Outcome (StatsCollection × Option FrozenStatsCollection)) (now : Time)
    (max_history : Duration) (past : List CountsForTimePeriod)
    (frozen : Option FrozenStatsCollection) : Type 0 where
  pub after : StatsCollection
  pub result : r ≡ done (after, frozen)
  pub sound : IsSound after
  pub bounded : after.total_duration ≤ℤ max_history
  pub dropped : List CountsForTimePeriod
  pub whole : past ≡ dropped ++ sound.past
  pub current : sound.current ≡ new_counts_for_time_period now

-- The statistics that a rotation hands out: all that was counted, over all periods that are over.
pub record IsHanded (now : Time) (stats : StatsCollection) (h : IsSound stats)
    (f : FrozenStatsCollection) (num : ℕ) : Type 0 where
  pub counts :
      (s : Scope) (x : Cell) → count s x f.totals ≡ sum_counts s x (h.past ++ h.current ∷ [])
  pub lengths : f.total_duration ≡ sum_lengths (h.past ++ end_period now h.current ∷ [])
  pub periods : f.counts ≡ seen_by_frozen stats.spare num (h.past ++ end_period now h.current ∷ [])

module _ (F : Floats) (extra : ℕ → ℕ) (now : Time) (max_history : Duration)
    (nonneg : pos 0 ≤ℤ max_history) (stats : StatsCollection) (h : IsSound stats) where
  latest : CountsForTimePeriod
  latest = end_period now h.current

  freeze_total-eq :
      stats.total_duration +ℤ duration now latest ≡ sum_lengths (h.past ++ latest ∷ [])
  unfolding latest
  freeze_total-eq = omega (
    int_laws,
    parts h.lengths,
    parts (duration-IsEnded now latest (now, refl)),
    parts (sum_lengths-append h.past (latest ∷ [])),
  )

  -- The collection just before the old periods are dropped.
  frozen-IsSound : IsSound (
      begun now
        (h.past ++ latest ∷ [])
        (spare_after_append extra stats.spare (length (h.past ++ latest ∷ [])))
        stats.totals
        (stats.total_duration +ℤ duration now latest))
  unfolding latest
  frozen-IsSound =
      begun-IsSound now (h.past ++ latest ∷ []) _ stats.totals _
        (All-append IsPeriod h.past (latest ∷ []) h.past_ok
          (end_period-IsPeriod now h.current h.current_ok, tt))
        (All-append IsEnded h.past (latest ∷ []) h.ended ((now, refl), tt)) h.totals_thawed
        h.balanced.totals
        (λ s x. omega (
          arith,
          h.balanced.sums s x,
          sum_counts-append s x h.past (h.current ∷ []),
          sum_counts-append s x h.past (latest ∷ []),
          end_period-count now h.current s x,
        ))
        freeze_total-eq

  -- On a sound collection and a non-negative longest history, a Rotate that does not throw the
  -- current period away returns statistics whose totals count, in each nest and in the world,
  -- what all the periods count, whose duration is that of all of them, and whose periods are all
  -- of them, ended, as far as the purge did not overwrite them; it leaves a sound collection
  -- whose current period is new and whose past is the old periods and the ended one, less some of
  -- the oldest, of at most the longest history.
  pub rotate_kept :
      (skip_pct : F.Float)
      → throws_away F skip_pct h.current.global_counts ≡ false
      → (f : FrozenStatsCollection) × (r : Rotates
          (rotate F extra now max_history skip_pct stats)
          now
          max_history
          (h.past ++ end_period now h.current ∷ [])
          (some f))
        × IsHanded now stats h f (length r.dropped)
  unfolding rotate begun-IsSound latest frozen-IsSound
  rotate_kept skip_pct kept =
      let (r, le, _) = keep_recent_stats-Retains _ frozen-IsSound extra now max_history nonneg in
      (
        record {
          total_duration = stats.total_duration +ℤ duration now latest;
          counts = seen_by_frozen stats.spare r.num (h.past ++ latest ∷ []);
          totals = Period.clone now stats.totals;
        },
        record {
          after = r.after;
          result = rw (h.counts, unsnoc-snoc h.past h.current) (rw kept (rw r.result refl));
          sound = r.sound;
          bounded = le;
          dropped = r.dropped;
          whole = r.whole;
          current = r.same_current;
        },
        record {
          counts = λ s x.
              count-clone_totals now stats.totals h.balanced.totals s x ∙ h.balanced.sums s x;
          lengths = freeze_total-eq;
          periods =
              ap (λ (n : ℕ). seen_by_frozen stats.spare n (h.past ++ latest ∷ [])) r.num_dropped;
        },
      )

  pub removed :
      Remainder
        (Period.subtract stats.totals (end_period now h.current))
        stats.totals
        (λ s x. sum_counts s x h.past)
  removed =
      subtract-Remainder stats.totals (end_period now h.current) (λ s x. sum_counts s x h.past)
        h.balanced.totals (end_period-IsPeriod now h.current h.current_ok)
        (record {
          sum = λ s x. omega (
            arith,
            h.balanced.sums s x,
            sum_counts-append s x h.past (h.current ∷ []),
            end_period-count now h.current s x,
          );
          below = λ s k. sum_counts-below s k h.past h.past_ok;
        })

  -- The collection of the other branch, just before the old periods are dropped.
  thrown-IsSound :
      (start : Time)
      → IsSound (
          begun now h.past stats.spare
            (record removed.after { start_time = start })
            stats.total_duration)
  unfolding removed
  thrown-IsSound start =
      let b =
        IsBalanced-start start removed.after h.past
          (record { totals = removed.totals; sums = removed.counts }) in
      begun-IsSound now h.past stats.spare _ stats.total_duration h.past_ok h.ended
        (removed.frozen ∙ h.totals_thawed) b.totals b.sums h.lengths

  -- On a sound collection and a non-negative longest history, a Rotate that throws the current
  -- period away returns nothing and leaves a sound collection, its totals counting only the past,
  -- whose current period is new and whose past is the old one less some of the oldest periods, of
  -- at most the longest history.
  pub rotate_thrown :
      (skip_pct : F.Float)
      → throws_away F skip_pct h.current.global_counts ≡ true
      → Rotates (rotate F extra now max_history skip_pct stats) now max_history h.past none
  unfolding rotate thrown-IsSound begun-IsSound latest
  rotate_thrown skip_pct thrown =
      let (start, started) = first_start-snoc h.past (new_counts_for_time_period now) in
      let (r, le, _) =
        keep_recent_stats-Retains _ (thrown-IsSound start) extra now max_history nonneg in
      record {
        after = r.after;
        result =
            rw (h.counts, unsnoc-snoc h.past h.current)
              (rw thrown (rw removed.result (rw started (rw r.result refl))));
        sound = r.sound;
        bounded = le;
        dropped = r.dropped;
        whole = r.whole;
        current = r.same_current;
      }
