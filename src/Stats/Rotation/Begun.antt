-- ===== src/Stats/Rotation/Begun.antt =====
-- A collection of processor/stats.go whose current period has just begun.
use fletchling.Prelude.{ℕ, ◌≡◌, refl, List, [], ◌∷◌, ◌++◌, arith, All, false, int_eq}
use fletchling.Prelude.Time.{Time, Duration}
use fletchling.Prelude.Map.{lookup-nil}
use fletchling.Stats.Counts.{CountsByPokemon}
use fletchling.Stats.Counts.Tally.{Cell, all, one, fresh-IsCounts}
use fletchling.Stats.Period.{CountsForTimePeriod, new_counts_for_time_period}
use fletchling.Stats.Period.Tally.{Scope, world, nest, count, IsPeriod, IsTotals}
use fletchling.Stats.Collection.{StatsCollection}
use fletchling.Stats.Collection.Balance.{IsEnded, sum_counts, sum_counts-append, sum_lengths}
use fletchling.Stats.Collection.Sound.{IsSound}
use fletchling.Stats.Rotation.{end_period}

pub count_new : (now : Time) (s : Scope) (x : Cell) → count s x (new_counts_for_time_period now) ≡ 0
count_new now world all = refl
count_new now world (one k) = rw lookup-nil refl
count_new now (nest id) all = rw lookup-nil refl
count_new now (nest id) (one k) = rw lookup-nil (rw lookup-nil refl)

pub fresh-IsPeriod : (now : Time) → IsPeriod (new_counts_for_time_period now)
fresh-IsPeriod now = record {
  global = fresh-IsCounts;
  nests_map = tt;
  nests = λ id c e. absurd (ground (arith, lookup-nil {V = CountsByPokemon} id, e));
}

pub end_period-count :
    (now : Time) (p : CountsForTimePeriod) (s : Scope) (x : Cell)
    → count s x (end_period now p) ≡ count s x p
end_period-count now p world x = refl
end_period-count now p (nest id) x = refl

pub end_period-IsPeriod :
    (now : Time) (p : CountsForTimePeriod) → IsPeriod p → IsPeriod (end_period now p)
end_period-IsPeriod now p h = record { global = h.global; nests_map = h.nests_map; nests = h.nests }

-- The totals and the past of a collection whose current period has just begun.
module _ (now : Time) (ps : List CountsForTimePeriod) (spare : ℕ) (totals : CountsForTimePeriod)
    (total : Duration) where
  abbrev pub begun : StatsCollection
  begun = record {
    totals = totals;
    total_duration = total;
    counts = ps ++ new_counts_for_time_period now ∷ [];
    spare = spare;
  }

  unfoldable pub begun-IsSound :
      All IsPeriod ps
      → All IsEnded ps
      → totals.frozen ≡ false
      → IsTotals totals
      → ((s : Scope) (x : Cell) → count s x totals ≡ sum_counts s x ps)
      → total ≡ sum_lengths ps
      → IsSound begun
  begun-IsSound ok ended thawed is sums len = record {
    past = ps;
    current = new_counts_for_time_period now;
    counts = refl;
    past_ok = ok;
    ended = ended;
    current_ok = fresh-IsPeriod now;
    thawed = refl;
    totals_thawed = thawed;
    balanced = record {
      totals = is;
      sums = λ s x. omega (
        arith,
        sums s x,
        sum_counts-append s x ps (new_counts_for_time_period now ∷ []),
        count_new now s x,
      );
    };
    lengths = len;
  }
