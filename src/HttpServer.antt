-- ===== src/HttpServer.antt =====
-- The handlers of httpserver/api_stats.go. Routing and JSON are the gin package's: a handler gets the
-- request as it was decoded, or none, and gives the response.
pub mod Nests
pub mod Messages
pub mod Purging
pub mod Examples
use fletchling.Prelude.{
  ℕ, ℤ, pos, Bool, Option, none, some, String, if◌then◌else◌, ltb_ℤ, Outcome, done, ◌>>=◌,
}
use fletchling.Prelude.Time.{Time, Duration, minute, times, quot}
use fletchling.Stats.Collection.{
  StatsCollection, keep_recent_stats, purge_oldest_stats, purge_newest_stats,
}

pub data Response {ℓ} (A : Type ℓ) : Type ℓ where
  status_ok : A → Response A
  bad_request : String → Response A
  not_found : String → Response A
  internal_error : String → Response A

pub record PurgeResponse : Type 0 where
  pub time_periods : ℕ
  pub duration_minutes : ℤ

pub record PurgeNewestRequest : Type 0 where
  pub duration_minutes : ℤ
  pub include_current : Bool

abbrev pub bad_json : String
bad_json = "bad request json"

abbrev pub not_positive : String
not_positive = "duration_minutes should be > 0"

-- `time.Minute * time.Duration(n)`, which wraps.
abbrev pub minutes : ℤ → Duration
minutes n = times minute n

-- The collection after the request, and the response.
abbrev pub Handled : Type 0
Handled = Outcome (StatsCollection × Response PurgeResponse)

abbrev pub purged_response : Outcome (StatsCollection × ℕ × Duration) → Handled
purged_response purge = do
  (stats, time_periods, duration) ← purge
  done (
    stats,
    status_ok (record { time_periods = time_periods; duration_minutes = quot duration minute }),
  )

-- The guard that the three handlers with a request share.
abbrev pub positive_minutes :
    StatsCollection → ℤ → (Duration → Outcome (StatsCollection × ℕ × Duration)) → Handled
positive_minutes stats n purge =
    if ltb_ℤ (pos 0) n
    then purged_response (purge (minutes n))
    else done (stats, bad_request not_positive)

module _ (extra : ℕ → ℕ) (now : Time) where
  unfoldable pub handle_purge_all_stats : StatsCollection → Handled
  unfolding keep_recent_stats quot
  handle_purge_all_stats stats = purged_response (keep_recent_stats extra now (pos 0) stats)

  unfoldable pub handle_purge_keep_stats : Option ℤ → StatsCollection → Handled
  unfolding keep_recent_stats quot times
  handle_purge_keep_stats none stats = done (stats, bad_request bad_json)
  handle_purge_keep_stats (some n) stats =
      positive_minutes stats n (λ keep. keep_recent_stats extra now keep stats)

  unfoldable pub handle_purge_oldest_stats : Option ℤ → StatsCollection → Handled
  unfolding purge_oldest_stats quot times
  handle_purge_oldest_stats none stats = done (stats, bad_request bad_json)
  handle_purge_oldest_stats (some n) stats =
      positive_minutes stats n (λ limit. purge_oldest_stats now limit stats)

  unfoldable pub handle_purge_newest_stats : Option PurgeNewestRequest → StatsCollection → Handled
  unfolding purge_newest_stats quot times
  handle_purge_newest_stats none stats = done (stats, bad_request bad_json)
  handle_purge_newest_stats (some request) stats =
      positive_minutes stats request.duration_minutes
        (λ limit. purge_newest_stats extra now limit request.include_current stats)
