-- ===== src/Stats/Rotation/Start.antt =====
-- NewStatsCollection of processor/stats.go, and that a sound collection has one past and one current
-- period.
use mathlib.Core.Option.{some-injective}
use fletchling.Prelude.{
  ◌≡◌, refl, ap, ◌∙◌, sym, List, [], ◌∷◌, ◌++◌, arith, pos, inr, unsnoc, unsnoc-snoc, int_eq,
}
use fletchling.Prelude.Time.{Time}
use fletchling.Prelude.Map.{lookup-nil}
use fletchling.Stats.Counts.{CountsByPokemon}
use fletchling.Stats.Counts.Tally.{fresh-IsCounts}
use fletchling.Stats.Counts.Copy.{IsCounts-IsLive}
use fletchling.Stats.Period.{CountsForTimePeriod, new_counts_for_time_period}
use fletchling.Stats.Period.Tally.{IsTotals}
use fletchling.Stats.Collection.{StatsCollection, new_stats_collection}
use fletchling.Stats.Collection.Sound.{IsSound}
use fletchling.Stats.Rotation.Begun.{begun-IsSound, count_new}

fresh-IsTotals : (now : Time) → IsTotals (new_counts_for_time_period now)
fresh-IsTotals now = record {
  live = λ id c e. absurd (ground (arith, lookup-nil {V = CountsByPokemon} id, e));
  nests_map = tt;
  global = inr (IsCounts-IsLive _ fresh-IsCounts);
  bound = λ s x. omega (arith, count_new now s x);
}

-- The collection that NewStatsCollection makes at any instant is sound.
pub new_stats_collection-IsSound : (now : Time) → IsSound (new_stats_collection now)
new_stats_collection-IsSound now =
    begun-IsSound now [] 7 (new_counts_for_time_period now) (pos 0) tt tt refl (fresh-IsTotals now)
      (λ s x. count_new now s x) refl

abbrev Split : Type 0
Split = List CountsForTimePeriod × CountsForTimePeriod

module _ (stats : StatsCollection) (h : IsSound stats) (ps : List CountsForTimePeriod)
    (p : CountsForTimePeriod) (counts : stats.counts ≡ ps ++ p ∷ []) where
  abbrev ours : Split
  ours = (h.past, h.current)

  abbrev theirs : Split
  theirs = (ps, p)

  split-eq : ours ≡ theirs
  split-eq =
      some-injective ours theirs
        (sym (unsnoc-snoc h.past h.current) ∙ ap unsnoc (sym h.counts ∙ counts) ∙ unsnoc-snoc ps p)

  pub past-eq : h.past ≡ ps
  past-eq = ap (λ (q : Split). q.0) split-eq

  pub current-eq : h.current ≡ p
  current-eq = ap (λ (q : Split). q.1) split-eq
