-- ===== src/HttpServer/Purging.antt =====
-- handlePurgeKeepStats of httpserver/api_stats.go on a sound collection.
use fletchling.Prelude.{
  ℕ, ◌*◌, ◌≡◌, ◌≤◌, ◌<◌, ap, ◌∙◌, pos, ◌≤ℤ◌, ltb_ℤ, true, some, List, ◌++◌, length, done, arith,
}
use fletchling.Prelude.Time.{Time, Duration, minute, times, quot}
use fletchling.Prelude.Word.{wrap64_lem}
use fletchling.Stats.Period.{CountsForTimePeriod}
use fletchling.Stats.Collection.{StatsCollection, keep_recent_stats}
use fletchling.Stats.Collection.Sound.{IsSound}
use fletchling.Stats.Collection.Balance.{sum_lengths}
use fletchling.Stats.Collection.Purges.{keep_recent_stats-Retains}
use fletchling.HttpServer.{status_ok, Handled, minutes, purged_response, handle_purge_keep_stats}

-- The longest time in minutes that a time.Duration holds.
abbrev pub most_minutes : ℕ
most_minutes = 153_722_867

minutes-small : (n : ℕ) → n ≤ most_minutes → minutes (pos n) ≡ pos (minute * n)
unfolding times
minutes-small n h = wrap64_lem (pos (minute * n)) (omega arith) (omega arith)

-- What a request to keep so many minutes does: it answers with the number and the whole minutes of the
-- periods that it dropped, which are the oldest ones.
pub record Keeps (n : ℕ) (stats : StatsCollection) (h : IsSound stats) (r : Handled) : Type 0 where
  pub after : StatsCollection
  pub dropped : List CountsForTimePeriod
  pub result :
      r
      ≡ done (
        after,
        status_ok (record {
          time_periods = length dropped;
          duration_minutes = quot (sum_lengths dropped) minute;
        }),
      )
  pub sound : IsSound after
  pub whole : h.past ≡ dropped ++ sound.past
  pub same_current : sound.current ≡ h.current
  pub bounded : after.total_duration ≤ℤ pos (minute * n)

-- On a sound collection a request to keep from 1 to 153,722,867 minutes of statistics, the most
-- that a time.Duration holds, is answered with the number and the whole minutes of the periods
-- that are dropped: they are the oldest ones, the collection stays sound with its current period,
-- and what is left of its past lasts at most so many minutes.
pub handle_purge_keep_stats-Keeps :
    (extra : ℕ → ℕ) (now : Time) (n : ℕ) (stats : StatsCollection) (h : IsSound stats)
    → 0 < n
    → n ≤ most_minutes
    → Keeps n stats h (handle_purge_keep_stats extra now (some (pos n)) stats)
unfolding handle_purge_keep_stats
handle_purge_keep_stats-Keeps extra now n stats h some_minutes few =
    let keep = pos (minute * n) in
    let (r, le, _) = keep_recent_stats-Retains stats h extra now keep (omega arith) in
    let response : ℕ → Duration → Handled = λ k d.
      done (r.after, status_ok (record { time_periods = k; duration_minutes = quot d minute })) in
    let test : ltb_ℤ (pos 0) (pos n) ≡ true = ground (arith, some_minutes) in
    record {
      after = r.after;
      dropped = r.dropped;
      result = rw test (
          ap (λ d. purged_response (keep_recent_stats extra now d stats)) (minutes-small n few)
          ∙ ap purged_response r.result
          ∙ ap (λ k. response k r.purged) r.num_dropped
          ∙ ap (response (length r.dropped)) r.length_dropped);
      sound = r.sound;
      whole = r.whole;
      same_current = r.same_current;
      bounded = le;
    }
