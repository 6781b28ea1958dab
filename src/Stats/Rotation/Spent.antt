-- ===== src/Stats/Rotation/Spent.antt =====
-- Rotate of processor/stats.go when the period that it throws away was the only one that counted
-- anything, and AddPokemon after it.
use fletchling.Prelude.{
  ℕ, suc, ◌<◌, ◌≡◌, refl, ◌∙◌, none, List, [], ◌∷◌, ◌++◌, arith, ℤ, pos, ◌≤ℤ◌, ltb_ℤ, done, panic,
  nil_map, true, false, length, unsnoc-snoc, int_eq,
}
use fletchling.Prelude.Float.{Floats}
use fletchling.Prelude.Time.{Time, Duration}
use fletchling.Prelude.Word.{u64_mod}
use fletchling.Models.{PokemonKey}
use fletchling.Stats.Counts.Tally.{all, IsSpent}
use fletchling.Stats.Period.{CountsForTimePeriod, new_counts_for_time_period}
use fletchling.Stats.Period.Tally.{world}
use fletchling.Stats.Collection.{
  StatsCollection, Purge, keep_recent_loop, keep_recent_stats, start_purge, spare_after_keep,
  add_pokemon, add_to_latest,
}
use fletchling.Stats.Collection.Panics.{add_pokemon_spent}
use fletchling.Stats.Collection.Adding.{add_pokemon-IsPeriod}
use fletchling.Stats.Collection.Balance.{sum_counts}
use fletchling.Stats.Collection.Sound.{IsSound, first_start-snoc, finished, finish_purge-eq}
use fletchling.Stats.Collection.Purges.{or_new_period-snoc}
use fletchling.Stats.Rotation.{throws_away, throw_away, rotate_latest, rotate}
use fletchling.Stats.Rotation.Begun.{count_new, fresh-IsPeriod}
use fletchling.Stats.Rotation.Sound.{removed}

keep_recent_loop_within :
    (now : Time) (keep : Duration) (s : Purge) (ps : List CountsForTimePeriod)
    → s.total_duration ≤ℤ keep
    → keep_recent_loop now keep s ps ≡ done (s, ps)
unfolding keep_recent_loop
keep_recent_loop_within now keep s [] le = refl
keep_recent_loop_within now keep s (p ∷ ps) le =
    let stays : ltb_ℤ keep s.total_duration ≡ false = ground (arith, le) in
    rw (stays, keep_recent_loop) refl

module _ (now : Time) (ps : List CountsForTimePeriod) (stats : StatsCollection)
    (counts : stats.counts ≡ ps ++ new_counts_for_time_period now ∷ []) where
  -- The periods are within `keep`, so only the start of the totals changes.
  keep_recent_stats_within :
      (extra : ℕ → ℕ) (keep : Duration)
      → stats.total_duration ≤ℤ keep
      → (spare : ℕ) × (keep_recent_stats extra now keep stats
          ≡ done (finished (start_purge stats) ps (new_counts_for_time_period now) spare, 0, pos 0))
  unfolding keep_recent_stats
  keep_recent_stats_within extra keep le = (
    spare_after_keep extra 0 stats.spare (ps ++ new_counts_for_time_period now ∷ []),
    rw (keep_recent_loop_within now keep (start_purge stats) stats.counts le, counts)
        (rw (or_new_period-snoc now ps (new_counts_for_time_period now))
          (finish_purge-eq (start_purge stats) ps (new_counts_for_time_period now) _)),
  )

  -- The current period counts the pokemon, and then the totals panic.
  add_pokemon_panics :
      (k : PokemonKey) (ids : List ℤ)
      → suc (length ids) < u64_mod
      → stats.totals.frozen ≡ false
      → IsSpent stats.totals.global_counts
      → add_pokemon k ids stats ≡ panic nil_map
  unfolding add_pokemon add_to_latest
  add_pokemon_panics k ids room thawed spent =
      let (a, _) =
        add_pokemon-IsPeriod k ids (new_counts_for_time_period now) (fresh-IsPeriod now) refl
          (λ s x. omega (arith, room, count_new now s x)) in
      rw (counts, unsnoc-snoc ps (new_counts_for_time_period now))
        (rw (a.result, add_pokemon_spent k ids stats.totals thawed spent) refl)

module _ (F : Floats) (extra : ℕ → ℕ) (now : Time) (max_history : Duration)
    (nonneg : pos 0 ≤ℤ max_history) (stats : StatsCollection) (h : IsSound stats) where
  -- On a sound collection whose past counts nothing and lasts at most the longest history, a
  -- Rotate that throws the current period away succeeds, and AddPokemon on what it leaves panics
  -- with a write to a nil map.
  pub rotate_thrown_panics :
      (skip_pct : F.Float) (k : PokemonKey) (ids : List ℤ)
      → throws_away F skip_pct h.current.global_counts ≡ true
      → sum_counts world all h.past ≡ 0
      → stats.total_duration ≤ℤ max_history
      → suc (length ids) < u64_mod
      → (after : StatsCollection) × (rotate F extra now max_history skip_pct stats
          ≡ done (after, none))
        × (add_pokemon k ids after ≡ panic nil_map)
  unfolding rotate throw_away rotate_latest
  rotate_thrown_panics skip_pct k ids thrown nothing within room =
      let r = removed F extra now max_history nonneg stats h in
      let (start, started) = first_start-snoc h.past (new_counts_for_time_period now) in
      let begun = record stats {
        totals = record r.after { start_time = start };
        counts = h.past ++ new_counts_for_time_period now ∷ [];
      } in
      let (spare, kept) = keep_recent_stats_within now h.past begun refl extra max_history within in
      (
        finished (start_purge begun) h.past (new_counts_for_time_period now) spare,
        rw (h.counts, unsnoc-snoc h.past h.current)
            (rw thrown (rw r.result (rw started (rw kept refl)))),
        add_pokemon_panics now h.past _ refl k ids room (r.frozen ∙ h.totals_thawed)
            (r.spent nothing),
      )
