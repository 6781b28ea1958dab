-- ===== src/Stats/Overlap.antt =====
-- AddPokemon and GetSnapshot of processor/stats.go at the same time. Both hold the mutex only for
-- reading, and GetSnapshot writes a copy of the current period into the array: here it runs after
-- AddPokemon has read the current period from there and before it counts in it.
use fletchling.Prelude.{
  suc, ◌+◌, ◌<◌, ◌≡◌, refl, ap, ◌∙◌, Bool, true, false, Option, none, some, List, [], ◌∷◌, ◌++◌,
  map, ℤ, int_eq, arith, Outcome, done, panic, bad_index, ◌>>=◌, ◌+ℤ◌, unsnoc, unsnoc-snoc, length,
}
use fletchling.Prelude.Time.{Time, time_sub}
use fletchling.Prelude.Word.{u64_mod}
use fletchling.Models.{PokemonKey}
use fletchling.Stats.Counts.Tally.{Cell, IsLive}
use fletchling.Stats.Period
use fletchling.Stats.Period.{CountsForTimePeriod}
use fletchling.Stats.Period.Tally.{Scope, count, gain}
use fletchling.Stats.Period.Copy.{count-clone}
use fletchling.Stats.Collection.{StatsCollection}
use fletchling.Stats.Collection.Balance.{sum_counts, sum_counts-append}
use fletchling.Stats.Collection.Sound.{IsSound}
use fletchling.Stats.Collection.Adding.{add_pokemon-IsPeriod, add_pokemon-IsTotals}
use fletchling.Stats.Rotation.{FrozenStatsCollection, snapshot_latest, get_snapshot}

abbrev counted_in_totals :
    PokemonKey
    → List ℤ
    → StatsCollection
    → FrozenStatsCollection
    → Bool
    → Outcome (StatsCollection × FrozenStatsCollection × Bool)
counted_in_totals k ids stats f false = done (stats, f, false)
counted_in_totals k ids stats f true = do
  (totals, _) ← Period.add_pokemon k ids stats.totals
  done (record stats { totals = totals }, f, true)

abbrev overlap_at :
    Time
    → PokemonKey
    → List ℤ
    → StatsCollection
    → Option (List CountsForTimePeriod × CountsForTimePeriod)
    → Outcome (StatsCollection × FrozenStatsCollection × Bool)
unfolding get_snapshot
overlap_at now k ids stats none = panic bad_index
overlap_at now k ids stats (some (_, latest)) = do
  (stats', f) ← get_snapshot now stats
  (_, was_counted) ← Period.add_pokemon k ids latest
  counted_in_totals k ids stats' f was_counted

-- The period that AddPokemon counts in is no longer in the collection by then.
unfoldable pub add_pokemon_around_snapshot :
    Time
    → PokemonKey
    → List ℤ
    → StatsCollection
    → Outcome (StatsCollection × FrozenStatsCollection × Bool)
unfolding overlap_at
add_pokemon_around_snapshot now k ids stats = overlap_at now k ids stats (unsnoc stats.counts)

-- The pokemon is in the totals and in no period.
pub record Loses (r : Outcome (StatsCollection × FrozenStatsCollection × Bool)) (k : PokemonKey)
    (ids : List ℤ) : Type 0 where
  pub after : StatsCollection
  pub taken : FrozenStatsCollection
  pub result : r ≡ done (after, taken, true)
  pub totals :
      (s : Scope) (x : Cell) → count s x after.totals ≡ sum_counts s x after.counts + gain s x k ids

overlap_at-done :
    (now : Time) (k : PokemonKey) (ids : List ℤ) (stats stats' : StatsCollection)
    (f : FrozenStatsCollection) (front : List CountsForTimePeriod)
    (latest orphan totals : CountsForTimePeriod) (again : Bool)
    → get_snapshot now stats ≡ done (stats', f)
    → Period.add_pokemon k ids latest ≡ done (orphan, true)
    → Period.add_pokemon k ids stats'.totals ≡ done (totals, again)
    → overlap_at now k ids stats (some (front, latest))
      ≡ done (record stats' { totals = totals }, f, true)
unfolding overlap_at
overlap_at-done now k ids stats stats' f front latest orphan totals again snap counted in_totals =
    rw (snap, counted) (rw in_totals refl)

-- On a sound collection whose totals can be written to, and with room in every counter, an
-- AddPokemon within which a GetSnapshot falls says that it counted the pokemon, and leaves totals
-- that count it once more than the periods do.
pub add_pokemon_around_snapshot-Loses :
    (now : Time) (k : PokemonKey) (ids : List ℤ) (stats : StatsCollection) (h : IsSound stats)
    → IsLive stats.totals.global_counts
    → ((s : Scope) (x : Cell) → count s x stats.totals + suc (length ids) < u64_mod)
    → Loses (add_pokemon_around_snapshot now k ids stats) k ids
unfolding add_pokemon_around_snapshot get_snapshot snapshot_latest Period.clone
add_pokemon_around_snapshot-Loses now k ids stats h live room =
    let (a, _) = add_pokemon-IsPeriod k ids h.current h.current_ok h.thawed (λ s x.
      omega
        (arith, room s x, h.balanced.sums s x, sum_counts-append s x h.past (h.current ∷ []))) in
    let (t, _) =
      add_pokemon-IsTotals k ids stats.totals h.balanced.totals live h.totals_thawed room in
    let last_entry = Period.clone now h.current in
    let stats' = record stats { counts = h.past ++ last_entry ∷ [] } in
    let f : FrozenStatsCollection = record {
      total_duration = stats.total_duration +ℤ time_sub now h.current.start_time;
      counts = map some (h.past ++ last_entry ∷ []);
      totals = Period.clone now stats.totals;
    } in
    let at_end = ap unsnoc h.counts ∙ unsnoc-snoc h.past h.current in
    let snap : get_snapshot now stats ≡ done (stats', f) = ap (snapshot_latest now stats) at_end in
    record {
      after = record stats { counts = h.past ++ last_entry ∷ []; totals = t.after };
      taken = f;
      result =
          ap (overlap_at now k ids stats) at_end
          ∙ overlap_at-done now k ids stats stats' f h.past h.current a.after t.after true snap
              a.result t.result;
      totals = λ s x. omega (
        arith,
        t.counts s x,
        h.balanced.sums s x,
        count-clone now h.current h.current_ok s x,
        sum_counts-append s x h.past (h.current ∷ []),
        sum_counts-append s x h.past (last_entry ∷ []),
      );
    }
