-- ===== src/Stats/Collection/Purges.antt =====
-- KeepRecent, PurgeOldest and PurgeNewest of processor/stats.go on a sound collection.
use mathlib.Core.List.{reverse}
use fletchling.Prelude.{
  ℕ, ◌≡◌, refl, ap, ◌∙◌, List, [], ◌∷◌, ◌++◌, arith, pos, ◌≤ℤ◌, ltb_ℤ, Outcome, All, All-left,
  All-right, false, true, ◌⊎◌, inl, inr, unsnoc-snoc, subst, int_laws,
}
use fletchling.Prelude.Time.{Time, Duration}
use fletchling.Stats.Period.{CountsForTimePeriod}
use fletchling.Stats.Period.Tally.{IsPeriod}
use fletchling.Stats.Collection.{
  StatsCollection, Purge, start_purge, or_new_period, keep_recent_stats, purge_oldest_stats,
  purge_newest_stats, purge_newest_before, finish_purge, spare_after_keep,
}
use fletchling.Stats.Collection.Balance.{IsEnded}
use fletchling.Stats.Collection.Kept.{
  Join, from_front, from_back, Kept, Stops, WasNeeded, oldest_of, DidFit, StopsAt,
}
use fletchling.Stats.Collection.Sound.{
  IsSound, Retains, finished, finish_purge-eq, finished-IsSound,
}
use fletchling.Stats.Collection.Retention.{keep_recent_loop-Kept, purge_oldest_periods-Kept}
use fletchling.Stats.Collection.Newest.{purge_newest_periods-Kept}

pub or_new_period-snoc :
    (now : Time) (ps : List CountsForTimePeriod) (p : CountsForTimePeriod)
    → or_new_period now (ps ++ p ∷ []) ≡ ps ++ p ∷ []
or_new_period-snoc now [] p = refl
or_new_period-snoc now (q ∷ ps) p = refl

-- What the loop keeps of a sound collection makes a sound collection again.
module _ (stats : StatsCollection) (h : IsSound stats) where
  Kept-Retains :
      (join : Join) (spare : ℕ) {out : List CountsForTimePeriod → List CountsForTimePeriod}
      {r : Outcome (Purge × List CountsForTimePeriod)}
      (k : Kept join out r (start_purge stats) h.past h.current)
      → All IsPeriod k.left
      → All IsEnded k.left
      → Retains join (finish_purge k.after (k.left ++ h.current ∷ []) spare) h.past h.current
  unfolding finished-IsSound
  Kept-Retains join spare k ps es = record {
    after = finished k.after k.left h.current spare;
    num = k.after.num;
    purged = k.after.purged;
    result = finish_purge-eq k.after k.left h.current spare;
    sound =
        finished-IsSound k.after k.left h.current spare ps es h.current_ok h.thawed
          (k.frozen ∙ h.totals_thawed) k.balanced k.lengths;
    dropped = k.dropped;
    whole = k.whole;
    same_current = refl;
    num_dropped = k.num ∙ omega arith;
    length_dropped = k.purged ∙ omega int_laws;
  }

  -- The periods behind those that were dropped are good as before.
  back_ok :
      (P : CountsForTimePeriod → Type 0) (dropped left : List CountsForTimePeriod)
      → h.past ≡ dropped ++ left
      → All P h.past
      → All P left
  back_ok P dropped left e ps = All-right P dropped left (subst (All P) e ps)

  front_ok :
      (P : CountsForTimePeriod → Type 0) (dropped left : List CountsForTimePeriod)
      → h.past ≡ left ++ dropped
      → All P h.past
      → All P left
  front_ok P dropped left e ps = All-left P left dropped (subst (All P) e ps)

  module _ (extra : ℕ → ℕ) (now : Time) where
    -- On a sound collection, keepRecentStats with a non-negative duration to keep drops only
    -- periods at the old end, never the current one, not even if the duration to keep is 0,
    -- subtracts them from the totals and the duration, reports their number and summed length,
    -- and leaves a sound collection. What is left of the past lasts at most the duration to keep,
    -- and each drop was needed: the length that was there before it was above the duration to
    -- keep.
    pub keep_recent_stats-Retains :
        (keep : Duration)
        → pos 0 ≤ℤ keep
        → (r : Retains from_front (keep_recent_stats extra now keep stats) h.past h.current)
          × (r.after.total_duration ≤ℤ keep)
          × WasNeeded keep r.after.total_duration r.dropped
    unfolding keep_recent_stats Kept-Retains
    keep_recent_stats-Retains keep nonneg =
        let (k, le, needed) =
          keep_recent_loop-Kept now keep h.current h.current_ok h.past (start_purge stats) nonneg
            h.balanced h.lengths h.past_ok h.ended in
        rw (h.counts, k.result, or_new_period-snoc now k.left h.current)
          (
            Kept-Retains from_front
                (spare_after_keep extra k.after.num stats.spare (k.left ++ h.current ∷ [])) k
                (back_ok IsPeriod k.dropped k.left k.whole h.past_ok)
                (back_ok IsEnded k.dropped k.left k.whole h.ended),
            le,
            needed,
          )

    -- On a sound collection, purgeOldestStats drops only periods at the old end, never the
    -- current one, leaves a sound collection, reports the number and summed length of what it
    -- dropped, which stays below the limit unless it is nothing, and stops only when the past is
    -- used up or the next period would reach the limit.
    pub purge_oldest_stats-Retains :
        (limit : Duration)
        → (r : Retains from_front (purge_oldest_stats now limit stats) h.past h.current) × ((r.num
              ≡ 0)
            ⊎ (ltb_ℤ r.purged limit ≡ true))
          × Stops now limit r.purged r.sound.past
    unfolding purge_oldest_stats Kept-Retains finished-IsSound
    purge_oldest_stats-Retains limit =
        let (k, within, stops) =
          purge_oldest_periods-Kept now h.current h.current_ok h.past limit (start_purge stats)
            h.balanced h.lengths h.past_ok h.ended in
        rw (h.counts, k.result)
          (
            Kept-Retains from_front stats.spare k
                (back_ok IsPeriod k.dropped k.left k.whole h.past_ok)
                (back_ok IsEnded k.dropped k.left k.whole h.ended),
            elim within [ inl same ↦ inl (ap (λ (s : Purge). s.num) same) | inr below ↦ inr below ],
            stops,
          )

    -- On a sound collection, purgeNewestStats without the current period drops only periods at
    -- the new end of the past, keeps the current one, reports their number and summed length, and
    -- leaves a sound collection. At every drop, the length purged until then and that of the
    -- oldest period, which is not the one that is dropped, were together below the limit; and it
    -- stops only when the past is used up or the two are no longer below the limit.
    pub purge_newest_stats-Retains :
        (limit : Duration)
        → (r : Retains from_back (purge_newest_stats extra now limit false stats) h.past h.current)
          × DidFit limit (oldest_of now h.past) (pos 0) (reverse r.dropped)
          × StopsAt limit (oldest_of now h.past) r.purged r.sound.past
    unfolding purge_newest_stats purge_newest_before Kept-Retains finished-IsSound
    purge_newest_stats-Retains limit =
        let (k, fit, stops) =
          purge_newest_periods-Kept now limit h.current h.current_ok h.past (start_purge stats)
            h.balanced h.lengths h.past_ok h.ended in
        rw (h.counts, unsnoc-snoc h.past h.current)
          (rw k.result (
            Kept-Retains from_back _ k (front_ok IsPeriod k.dropped k.left k.whole h.past_ok)
                (front_ok IsEnded k.dropped k.left k.whole h.ended),
            fit,
            stops,
          ))
