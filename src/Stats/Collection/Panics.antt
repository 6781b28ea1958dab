-- ===== src/Stats/Collection/Panics.antt =====
-- AddPokemon of processor/stats.go on totals that were left with a nil map.
use fletchling.Prelude.{
  suc, ◌+◌, ◌<◌, ◌≡◌, refl, List, [], ◌∷◌, arith, ℤ, int_eq, panic, nil_map, false, length,
  unsnoc-snoc,
}
use fletchling.Prelude.Word.{u64_mod}
use fletchling.Models.{PokemonKey}
use fletchling.Stats.Counts
use fletchling.Stats.Counts.{CountsByPokemon}
use fletchling.Stats.Counts.Tally.{Cell, IsSpent}
use fletchling.Stats.Period
use fletchling.Stats.Period.{CountsForTimePeriod}
use fletchling.Stats.Period.Tally.{Scope, count}
use fletchling.Stats.Collection.{StatsCollection, add_pokemon, add_to_latest}
use fletchling.Stats.Collection.Adding.{add_pokemon-IsPeriod}
use fletchling.Stats.Collection.Balance.{sum_counts-append}
use fletchling.Stats.Collection.Sound.{IsSound}

increment_spent :
    (k : PokemonKey) (c : CountsByPokemon) → IsSpent c → Counts.increment k c ≡ panic nil_map
unfolding Counts.increment
increment_spent k c h = rw (h.0) refl

pub add_pokemon_spent :
    (k : PokemonKey) (ids : List ℤ) (p : CountsForTimePeriod)
    → p.frozen ≡ false
    → IsSpent p.global_counts
    → Period.add_pokemon k ids p ≡ panic nil_map
unfolding Period.add_pokemon
add_pokemon_spent k ids p thawed h = rw (thawed, increment_spent k p.global_counts h) refl

-- The current period counts the pokemon, and then the totals panic.
pub add_pokemon_spent_panics :
    (k : PokemonKey) (ids : List ℤ) (stats : StatsCollection)
    → IsSound stats
    → ((s : Scope) (x : Cell) → count s x stats.totals + suc (length ids) < u64_mod)
    → IsSpent stats.totals.global_counts
    → add_pokemon k ids stats ≡ panic nil_map
unfolding add_pokemon add_to_latest
add_pokemon_spent_panics k ids stats h room spent =
    let (a, _) = add_pokemon-IsPeriod k ids h.current h.current_ok h.thawed (λ s x.
      omega
        (arith, room s x, h.balanced.sums s x, sum_counts-append s x h.past (h.current ∷ []))) in
    rw (h.counts, unsnoc-snoc h.past h.current)
      (rw (a.result, add_pokemon_spent k ids stats.totals h.totals_thawed spent) refl)
