-- ===== src/Stats/Collection/Adding.antt =====
-- AddPokemon on a sound collection, in processor/stats.go: it is counted in the current period and in
-- the totals alike.
use fletchling.Prelude.{
  ℕ, suc, ◌+◌, ◌≤◌, ◌<◌, ◌≡◌, refl, ◌∙◌, some, List, [], ◌∷◌, ◌++◌, arith, ℤ, Outcome, done, false,
  true, Bool, length, inr, unsnoc-snoc, int_eq,
}
use fletchling.Prelude.Word.{u64_mod}
use fletchling.Prelude.Map.{Map, IsMap}
use fletchling.Models.{PokemonKey, key_eq}
use fletchling.Stats.Counts.{CountsByPokemon}
use fletchling.Stats.Counts.Tally.{
  Cell, all, one, IsCounts, IsLive, incremented, incremented-IsCounts, incremented-IsLive,
  tally-incremented, fresh-IsCounts,
}
use fletchling.Stats.Counts.Copy.{IsCounts-IsLive}
use fletchling.Stats.Period
use fletchling.Stats.Period.{CountsForTimePeriod}
use fletchling.Stats.Period.Tally.{
  Scope, world, nest, count, gain, gain-le-length, IsPeriod, IsTotals,
}
use fletchling.Stats.Period.Adding.{Added, add_pokemon-Added}
use fletchling.Stats.Collection.{StatsCollection, add_pokemon, add_to_latest}
use fletchling.Stats.Collection.Balance.{sum_counts-append}
use fletchling.Stats.Collection.Sound.{IsSound}

abbrev pub InNest : CountsByPokemon → Type 0
InNest c = IsCounts c × (0 < c.total)

pub in_nest :
    (k : PokemonKey) (c : CountsByPokemon) (m : Map PokemonKey ℕ)
    → c.by_pokemon ≡ some m
    → IsMap m
    → IsCounts c
    → InNest (incremented k c m)
in_nest k c m is is_map h =
    (incremented-IsCounts k c m is h, omega (arith, tally-incremented k c m is all))

abbrev pub PeriodAdded :
    Outcome (CountsForTimePeriod × Bool) → PokemonKey → List ℤ → CountsForTimePeriod → Type 0
PeriodAdded = Added IsCounts InNest (λ c h. h.0) fresh-IsCounts IsCounts-IsLive in_nest

pub gain-le :
    (s : Scope) (x : Cell) (k : PokemonKey) (ids : List ℤ) → gain s x k ids ≤ suc (length ids)
gain-le world all k ids = omega arith
gain-le world (one j) k ids = ground arith
gain-le (nest id) x k ids = omega (arith, gain-le-length id x k ids)

-- A filled period stays one.
pub add_pokemon-IsPeriod :
    (k : PokemonKey) (ids : List ℤ) (p : CountsForTimePeriod)
    → IsPeriod p
    → p.frozen ≡ false
    → ((s : Scope) (x : Cell) → count s x p + suc (length ids) < u64_mod)
    → (a : PeriodAdded (Period.add_pokemon k ids p) k ids p) × IsPeriod a.after
add_pokemon-IsPeriod k ids p h thawed room =
    let a =
      add_pokemon-Added IsCounts InNest (λ c h. h.0) fresh-IsCounts IsCounts-IsLive in_nest k ids p
        thawed h.global h.nests room in
    (a, record { global = a.global.0; nests_map = a.nests_map h.nests_map; nests = a.nests })

pub grow-IsLive :
    (k : PokemonKey) (c : CountsByPokemon) (m : Map PokemonKey ℕ)
    → c.by_pokemon ≡ some m
    → IsMap m
    → IsLive c
    → IsLive (incremented k c m)
grow-IsLive k c m is is_map h = incremented-IsLive k c m is_map

abbrev pub TotalsAdded :
    Outcome (CountsForTimePeriod × Bool) → PokemonKey → List ℤ → CountsForTimePeriod → Type 0
TotalsAdded = Added IsLive IsLive (λ c h. h) ([], refl, tt) (λ c h. h) grow-IsLive

pub add_pokemon-IsTotals :
    (k : PokemonKey) (ids : List ℤ) (t : CountsForTimePeriod)
    → IsTotals t
    → IsLive t.global_counts
    → t.frozen ≡ false
    → ((s : Scope) (x : Cell) → count s x t + suc (length ids) < u64_mod)
    → (a : TotalsAdded (Period.add_pokemon k ids t) k ids t) × IsTotals a.after
add_pokemon-IsTotals k ids t h live thawed room =
    let a =
      add_pokemon-Added IsLive IsLive (λ c h. h) ([], refl, tt) (λ c h. h) grow-IsLive k ids t
        thawed live h.live room in
    (
      a,
      record {
        live = a.nests;
        nests_map = a.nests_map h.nests_map;
        global = inr a.global;
        bound = λ s x. omega (arith, a.counts s x, room s x, gain-le s x k ids);
      },
    )

-- AddPokemon counted the pokemon once: `gain` says in which cells.
pub record Counts (r : Outcome (StatsCollection × Bool)) (k : PokemonKey) (ids : List ℤ)
    (stats : StatsCollection) (h : IsSound stats) : Type 0 where
  pub after : StatsCollection
  pub result : r ≡ done (after, true)
  pub sound : IsSound after
  pub live : IsLive after.totals.global_counts
  pub same_past : sound.past ≡ h.past
  pub in_current :
      (s : Scope) (x : Cell) → count s x sound.current ≡ count s x h.current + gain s x k ids
  pub in_totals :
      (s : Scope) (x : Cell) → count s x after.totals ≡ count s x stats.totals + gain s x k ids

-- On a sound collection whose totals can be written to, and with room in every counter,
-- AddPokemon counts the pokemon once in the world and once for each matched nest, in the current
-- period and in the totals alike, changes no past period, and leaves the collection sound.
pub add_pokemon-Counts :
    (k : PokemonKey) (ids : List ℤ) (stats : StatsCollection) (h : IsSound stats)
    → IsLive stats.totals.global_counts
    → ((s : Scope) (x : Cell) → count s x stats.totals + suc (length ids) < u64_mod)
    → Counts (add_pokemon k ids stats) k ids stats h
unfolding add_pokemon add_to_latest
add_pokemon-Counts k ids stats h live room =
    let (a, ok) = add_pokemon-IsPeriod k ids h.current h.current_ok h.thawed (λ s x.
      omega
        (arith, room s x, h.balanced.sums s x, sum_counts-append s x h.past (h.current ∷ []))) in
    let (t, totals) =
      add_pokemon-IsTotals k ids stats.totals h.balanced.totals live h.totals_thawed room in
    record {
      after = record stats { counts = h.past ++ a.after ∷ []; totals = t.after };
      result = rw (h.counts, unsnoc-snoc h.past h.current) (rw (a.result, t.result) refl);
      sound = record {
        past = h.past;
        current = a.after;
        counts = refl;
        past_ok = h.past_ok;
        ended = h.ended;
        current_ok = ok;
        thawed = a.frozen ∙ h.thawed;
        totals_thawed = t.frozen ∙ h.totals_thawed;
        balanced = record {
          totals = totals;
          sums = λ s x. omega (
            arith,
            a.counts s x,
            t.counts s x,
            h.balanced.sums s x,
            sum_counts-append s x h.past (h.current ∷ []),
            sum_counts-append s x h.past (a.after ∷ []),
          );
        };
        lengths = h.lengths;
      };
      live = t.global;
      same_past = refl;
      in_current = a.counts;
      in_totals = t.counts;
    }
