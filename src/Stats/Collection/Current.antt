-- ===== src/Stats/Collection/Current.antt =====
-- PurgeNewest of processor/stats.go with the current period, when it is the only one.
use fletchling.Prelude.{
  ℕ, ◌+◌, ◌≡◌, refl, ap, ◌∙◌, List, [], ◌∷◌, ◌++◌, pos, ◌+ℤ◌, ltb_ℤ, int_laws, done, true, int_eq,
}
use fletchling.Prelude.Int.{parts}
use fletchling.Prelude.Time.{Time, Duration}
use fletchling.Stats.Period.{CountsForTimePeriod, new_counts_for_time_period, duration}
use fletchling.Stats.Collection.{
  StatsCollection, Purge, drop_period, start_purge, spare_after_append, purge_newest_loop,
  purge_newest_periods, purge_newest_all, purge_newest_stats,
}
use fletchling.Stats.Collection.Balance.{drop_period-Dropped, sum_counts, sum_lengths}
use fletchling.Stats.Collection.Sound.{IsSound, finished, finish_purge-eq}

module _ (now : Time) (limit : Duration) (s t : Purge) (p : CountsForTimePeriod)
    (fits : ltb_ℤ (s.purged +ℤ duration now p) limit ≡ true)
    (dropped : drop_period now p s ≡ done t) where
  purge_newest_loop_one : purge_newest_loop now limit (duration now p) s (p ∷ []) ≡ done (t, [])
  unfolding purge_newest_loop
  purge_newest_loop_one = rw (fits, purge_newest_loop) (rw dropped refl)

  purge_newest_periods_one : purge_newest_periods now limit s (p ∷ []) ≡ done (t, [])
  unfolding purge_newest_periods
  purge_newest_periods_one = rw purge_newest_loop_one refl

module _ (extra : ℕ → ℕ) (now : Time) (limit : Duration) (stats : StatsCollection)
    (h : IsSound stats) where
  -- On a sound collection with no past whose current period fits below the limit,
  -- purgeNewestStats with the current period reports that it dropped one period, begins a new
  -- one, and leaves a duration that is the length of the dropped period below zero, although that
  -- length was never part of it.
  pub purge_newest_stats_current :
      h.past ≡ []
      → ltb_ℤ (pos 0 +ℤ duration now h.current) limit ≡ true
      → (after : StatsCollection) × (purge_newest_stats extra now limit true stats
          ≡ done (after, 1, pos 0 +ℤ duration now h.current))
        × (after.counts ≡ new_counts_for_time_period now ∷ [])
        × (after.total_duration +ℤ duration now h.current ≡ pos 0)
  unfolding purge_newest_stats purge_newest_all
  purge_newest_stats_current alone fits =
      let only : stats.counts ≡ h.current ∷ [] =
        h.counts ∙ ap (λ (ps : List CountsForTimePeriod). ps ++ h.current ∷ []) alone in
      let d =
        drop_period-Dropped now h.current (start_purge stats) [] h.balanced.totals
          (λ x c.
            h.balanced.sums x c
            ∙ ap (λ (ps : List CountsForTimePeriod). sum_counts x c (ps ++ h.current ∷ [])) alone)
          h.current_ok tt in
      let t = record d.after { num = 1 } in
      let result : drop_period now h.current (start_purge stats) ≡ done t =
        d.result ∙ ap (λ (n : ℕ). done (record d.after { num = n })) d.num in
      let begun = new_counts_for_time_period now in
      let after = finished t [] begun (spare_after_append extra (stats.spare + 1) 0) in
      (
        after,
        rw only (
              rw (purge_newest_periods_one now limit (start_purge stats) t h.current fits result)
                (finish_purge-eq t [] begun (spare_after_append extra (stats.spare + 1) 0)))
            ∙ ap (λ (x : Duration). done (after, 1, x)) d.purged,
        refl,
        omega (int_laws, parts d.length, parts h.lengths, parts (ap sum_lengths alone)),
      )
