-- ===== src/Stats/Collection/Sound.antt =====
-- The invariant of a StatsCollection of processor/stats.go, and what a purge promises.
use fletchling.Prelude.{
  ℕ, ◌≡◌, refl, List, [], ◌∷◌, ◌++◌, Outcome, done, All, false, length, int_eq,
}
use fletchling.Prelude.Time.{Time, Duration}
use fletchling.Stats.Period.{CountsForTimePeriod}
use fletchling.Stats.Period.Tally.{world, nest, IsPeriod}
use fletchling.Stats.Collection.{StatsCollection, Purge, first_start, finish_purge}
use fletchling.Stats.Collection.Balance.{IsBalanced, IsEnded, sum_lengths}
use fletchling.Stats.Collection.Kept.{Join}

pub record IsSound (stats : StatsCollection) : Type 0 where
  pub past : List CountsForTimePeriod
  pub current : CountsForTimePeriod
  pub counts : stats.counts ≡ past ++ current ∷ []
  pub past_ok : All IsPeriod past
  pub ended : All IsEnded past
  pub current_ok : IsPeriod current
  pub thawed : current.frozen ≡ false
  pub totals_thawed : stats.totals.frozen ≡ false
  pub balanced : IsBalanced stats.totals (past ++ current ∷ [])
  pub lengths : stats.total_duration ≡ sum_lengths past

-- The start of the totals is no part of what they count.
pub IsBalanced-start :
    (start : Time) (t : CountsForTimePeriod) (ps : List CountsForTimePeriod)
    → IsBalanced t ps
    → IsBalanced (record t { start_time = start }) ps
IsBalanced-start start t ps b = record {
  totals = record {
    live = b.totals.live;
    nests_map = b.totals.nests_map;
    global = b.totals.global;
    bound = elim [ world ↦ b.totals.bound world | nest id ↦ b.totals.bound (nest id) ];
  };
  sums = elim [ world ↦ b.sums world | nest id ↦ b.sums (nest id) ];
}

pub first_start-snoc :
    (ps : List CountsForTimePeriod) (p : CountsForTimePeriod)
    → (t : Time) × (first_start (ps ++ p ∷ []) ≡ done t)
unfolding first_start
first_start-snoc [] p = (p.start_time, refl)
first_start-snoc (q ∷ ps) p = (q.start_time, refl)

-- A purge that took `dropped` from one end of the past, and nothing else.
pub record Retains (join : Join) (r : Outcome (StatsCollection × ℕ × Duration))
    (past : List CountsForTimePeriod) (current : CountsForTimePeriod) : Type 0 where
  pub after : StatsCollection
  pub num : ℕ
  pub purged : Duration
  pub result : r ≡ done (after, num, purged)
  pub sound : IsSound after
  pub dropped : List CountsForTimePeriod
  pub whole : past ≡ join dropped sound.past
  pub same_current : sound.current ≡ current
  pub num_dropped : num ≡ length dropped
  pub length_dropped : purged ≡ sum_lengths dropped

module _ (s : Purge) (left : List CountsForTimePeriod) (current : CountsForTimePeriod)
    (spare : ℕ) where
  abbrev pub finished : StatsCollection
  finished = record {
    totals = record s.totals { start_time = (first_start-snoc left current).0 };
    total_duration = s.total_duration;
    counts = left ++ current ∷ [];
    spare = spare;
  }

  pub finish_purge-eq :
      finish_purge s (left ++ current ∷ []) spare ≡ done (finished, s.num, s.purged)
  unfolding finish_purge
  finish_purge-eq = rw ((first_start-snoc left current).1) refl

  unfoldable pub finished-IsSound :
      All IsPeriod left
      → All IsEnded left
      → IsPeriod current
      → current.frozen ≡ false
      → s.totals.frozen ≡ false
      → IsBalanced s.totals (left ++ current ∷ [])
      → s.total_duration ≡ sum_lengths left
      → IsSound finished
  finished-IsSound ps es ok thawed totals_thawed b len = record {
    past = left;
    current = current;
    counts = refl;
    past_ok = ps;
    ended = es;
    current_ok = ok;
    thawed = thawed;
    totals_thawed = totals_thawed;
    balanced = IsBalanced-start _ s.totals (left ++ current ∷ []) b;
    lengths = len;
  }
