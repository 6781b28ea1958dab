-- ===== src/Stats/Collection.antt =====
-- StatsCollection of processor/stats.go: the periods, oldest first, the last one current; their
-- running totals; and the summed length of the periods that are over. A whole call is a function of
-- the state; Stats/Overlap has the calls that hold the mutex only for reading. `now` is what
-- time.Now() returns, read once.
-- `spare` is the room behind the slice of periods in its array: `append` writes there if it can, and
-- two slices then share the array. `extra n` is the room that a new array for n + 1 periods gets.
pub mod Balance
pub mod Kept
pub mod Sound
pub mod Retention
pub mod Newest
pub mod Purges
pub mod Adding
pub mod Panics
pub mod Current
use mathlib.Core.List.{reverse}
use fletchling.Prelude.{
  ℕ, zero, suc, ◌+◌, Bool, true, false, Option, none, some, List, [], ◌∷◌, ◌++◌, if◌then◌else◌,
  ltb_ℤ, ◌+ℤ◌, ◌-ℤ◌, ℤ, pos, Outcome, done, panic, bad_index, ◌>>=◌, unsnoc, length,
}
use fletchling.Prelude.Time.{Time, Duration}
use fletchling.Models.{PokemonKey}
use fletchling.Stats.Period
use fletchling.Stats.Period.{CountsForTimePeriod, new_counts_for_time_period, duration}

pub record StatsCollection : Type 0 where
  pub totals : CountsForTimePeriod
  pub total_duration : Duration
  pub counts : List CountsForTimePeriod
  pub spare : ℕ

abbrev pub new_stats_collection : Time → StatsCollection
new_stats_collection now = record {
  totals = new_counts_for_time_period now;
  total_duration = pos 0;
  counts = new_counts_for_time_period now ∷ [];
  spare = 7;
}

-- What a loop that drops periods carries along.
pub record Purge : Type 0 where
  pub num : ℕ
  pub purged : Duration
  pub total_duration : Duration
  pub totals : CountsForTimePeriod

abbrev pub start_purge : StatsCollection → Purge
start_purge stats = record {
  num = 0;
  purged = pos 0;
  total_duration = stats.total_duration;
  totals = stats.totals;
}

unfoldable pub drop_period : Time → CountsForTimePeriod → Purge → Outcome Purge
drop_period now del s = do
  totals ← Period.subtract s.totals del
  done (record {
    num = suc s.num;
    purged = s.purged +ℤ duration now del;
    total_duration = s.total_duration -ℤ duration now del;
    totals = totals;
  })

-- `append` to a slice with this much room, of this length.
abbrev pub spare_after_append : (ℕ → ℕ) → ℕ → ℕ → ℕ
spare_after_append extra zero n = extra n
spare_after_append extra (suc room) n = room

-- `counts[0].StartTime`
unfoldable pub first_start : List CountsForTimePeriod → Outcome Time
first_start [] = panic bad_index
first_start (p ∷ ps) = done p.start_time

-- The end of each purge: the new slice, and the start of the totals.
unfoldable pub finish_purge :
    Purge → List CountsForTimePeriod → ℕ → Outcome (StatsCollection × ℕ × Duration)
unfolding first_start
finish_purge s counts spare = do
  start ← first_start counts
  done (
    record {
      totals = record s.totals { start_time = start };
      total_duration = s.total_duration;
      counts = counts;
      spare = spare;
    },
    s.num,
    s.purged,
  )

unfoldable pub keep_recent_loop :
    Time → Duration → Purge → List CountsForTimePeriod → Outcome (Purge × List CountsForTimePeriod)
keep_recent_loop now keep s [] = done (s, [])
keep_recent_loop now keep s (del ∷ counts) = elim (ltb_ℤ keep s.total_duration) [
  | true ↦ do s' ← drop_period now del s; keep_recent_loop now keep s' counts
  | false ↦ done (s, del ∷ counts)
]

-- Never leaves the slice empty.
abbrev pub or_new_period : Time → List CountsForTimePeriod → List CountsForTimePeriod
or_new_period now [] = new_counts_for_time_period now ∷ []
or_new_period now (p ∷ ps) = p ∷ ps

-- If anything was purged the periods move to an array of their own.
abbrev pub spare_after_keep : (ℕ → ℕ) → ℕ → ℕ → List CountsForTimePeriod → ℕ
spare_after_keep extra (suc num) spare counts = 0
spare_after_keep extra zero spare [] = spare_after_append extra spare 0
spare_after_keep extra zero spare (p ∷ ps) = spare

module _ (extra : ℕ → ℕ) where
  unfoldable pub keep_recent_stats :
      Time → Duration → StatsCollection → Outcome (StatsCollection × ℕ × Duration)
  unfolding keep_recent_loop finish_purge
  keep_recent_stats now keep stats = do
    (s, counts) ← keep_recent_loop now keep (start_purge stats) stats.counts
    finish_purge s (or_new_period now counts) (spare_after_keep extra s.num stats.spare counts)

-- The loop over the oldest period and those behind it. The last one is never dropped.
unfoldable pub purge_oldest_loop :
    Time
    → Duration
    → Purge
    → CountsForTimePeriod
    → List CountsForTimePeriod
    → Outcome (Purge × List CountsForTimePeriod)
purge_oldest_loop now limit s del [] = done (s, del ∷ [])
purge_oldest_loop now limit s del (p ∷ counts) = elim (ltb_ℤ (s.purged +ℤ duration now del) limit) [
  | true ↦ do s' ← drop_period now del s; purge_oldest_loop now limit s' p counts
  | false ↦ done (s, del ∷ p ∷ counts)
]

unfoldable pub purge_oldest_periods :
    Time → Duration → Purge → List CountsForTimePeriod → Outcome (Purge × List CountsForTimePeriod)
purge_oldest_periods now limit s [] = done (s, [])
purge_oldest_periods now limit s (p ∷ counts) = purge_oldest_loop now limit s p counts

unfoldable pub purge_oldest_stats :
    Time → Duration → StatsCollection → Outcome (StatsCollection × ℕ × Duration)
unfolding purge_oldest_periods finish_purge
purge_oldest_stats now limit stats = do
  (s, counts) ← purge_oldest_periods now limit (start_purge stats) stats.counts
  finish_purge s counts stats.spare

-- The periods from the newest on. The room that is tested for is always that of the oldest period,
-- `counts[0]`, whose length is `oldest`.
unfoldable pub purge_newest_loop :
    Time
    → Duration
    → Duration
    → Purge
    → List CountsForTimePeriod
    → Outcome (Purge × List CountsForTimePeriod)
purge_newest_loop now limit oldest s [] = done (s, [])
purge_newest_loop now limit oldest s (del ∷ newer) = elim (ltb_ℤ (s.purged +ℤ oldest) limit) [
  | true ↦ do s' ← drop_period now del s; purge_newest_loop now limit oldest s' newer
  | false ↦ done (s, del ∷ newer)
]

-- The loop is not entered with no period, so the length of the oldest is not asked for then.
unfoldable pub purge_newest_periods :
    Time → Duration → Purge → List CountsForTimePeriod → Outcome (Purge × List CountsForTimePeriod)
purge_newest_periods now limit s [] = done (s, [])
purge_newest_periods now limit s (p ∷ counts) = do
  (s', left) ← purge_newest_loop now limit (duration now p) s (reverse (p ∷ counts))
  done (s', reverse left)

module _ (extra : ℕ → ℕ) where
  -- Without the current period, which is put back at the end.
  unfoldable pub purge_newest_before :
      Time
      → Duration
      → StatsCollection
      → Option (List CountsForTimePeriod × CountsForTimePeriod)
      → Outcome (StatsCollection × ℕ × Duration)
  purge_newest_before now limit stats none = panic bad_index
  purge_newest_before now limit stats (some (front, current)) = do
    (s, counts) ← purge_newest_periods now limit (start_purge stats) front
    finish_purge s (counts ++ current ∷ [])
        (spare_after_append extra (suc stats.spare + s.num) (length counts))

  -- With the current period: if it was dropped a new one begins.
  unfoldable pub purge_newest_all :
      Time → Duration → StatsCollection → Outcome (StatsCollection × ℕ × Duration)
  purge_newest_all now limit stats = do
    (s, counts) ← purge_newest_periods now limit (start_purge stats) stats.counts
    elim s.num [
      | zero ↦ finish_purge s counts stats.spare
      | suc _ ↦
          finish_purge s (counts ++ new_counts_for_time_period now ∷ [])
            (spare_after_append extra (stats.spare + s.num) (length counts))
    ]

  unfoldable pub purge_newest_stats :
      Time → Duration → Bool → StatsCollection → Outcome (StatsCollection × ℕ × Duration)
  unfolding purge_newest_periods purge_newest_before purge_newest_all finish_purge
  purge_newest_stats now limit include_current stats =
      if include_current
      then purge_newest_all now limit stats
      else purge_newest_before now limit stats (unsnoc stats.counts)

-- The totals are only counted in if the current period was not frozen.
unfoldable pub add_to_latest :
    PokemonKey
    → List ℤ
    → StatsCollection
    → Option (List CountsForTimePeriod × CountsForTimePeriod)
    → Outcome (StatsCollection × Bool)
add_to_latest k ids stats none = panic bad_index
add_to_latest k ids stats (some (front, latest)) = do
  (latest', was_counted) ← Period.add_pokemon k ids latest
  if was_counted
      then (do
        (totals, _) ← Period.add_pokemon k ids stats.totals
        done (record stats { counts = front ++ latest' ∷ []; totals = totals }, true))
      else done (stats, false)

unfoldable pub add_pokemon :
    PokemonKey → List ℤ → StatsCollection → Outcome (StatsCollection × Bool)
unfolding add_to_latest
add_pokemon k ids stats = add_to_latest k ids stats (unsnoc stats.counts)
