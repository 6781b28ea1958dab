-- ===== src/Stats/Examples.antt =====
-- A collection of processor/stats.go with one pokemon counted in one nest, and its rotations
-- and purges.
pub mod Rotating
pub mod Frozen
pub mod Purging
use fletchling.Prelude.{
  ℕ, suc, ◌+◌, ◌*◌, ◌<◌, ◌≡◌, refl, sym, ap, ◌∙◌, subst, Bool, none, some, List, [], ◌∷◌, arith, ℤ,
  pos, Outcome, done, true, false, panic, unsnoc-snoc,
}
use fletchling.Prelude.Float.{Ratio}
use fletchling.Prelude.Map
use fletchling.Prelude.Time.{hour, Duration}
use fletchling.Prelude.Word.{u64_mod, inc64}
use fletchling.Models.{PokemonKey, eqb_key}
use fletchling.Stats.Counts
use fletchling.Stats.Counts.{CountsByPokemon}
use fletchling.Stats.Counts.Tally.{Cell, fresh-IsCounts}
use fletchling.Stats.Counts.Copy.{IsCounts-IsLive}
use fletchling.Stats.Period
use fletchling.Stats.Period.{CountsForTimePeriod, new_counts_for_time_period}
use fletchling.Stats.Period.Tally.{Scope, count}
use fletchling.Stats.Collection.{StatsCollection, new_stats_collection, add_pokemon, add_to_latest}
use fletchling.Stats.Collection.Sound.{IsSound}
use fletchling.Stats.Collection.Adding.{Counts, add_pokemon-Counts}
use fletchling.Stats.Rotation.Begun.{count_new}
use fletchling.Stats.Rotation.Start.{new_stats_collection-IsSound, past-eq, current-eq}

abbrev pikachu : PokemonKey
pikachu = record { pokemon_id = pos 25; form_id = pos 0 }

abbrev park : List ℤ
park = pos 7 ∷ []

abbrev empty_stats : StatsCollection
empty_stats = new_stats_collection 0

abbrev one_pikachu : CountsByPokemon
one_pikachu = record { total = 1; by_pokemon = some ((pikachu, 1) ∷ []) }

abbrev one_period : CountsForTimePeriod
one_period = record {
  frozen = false;
  start_time = 0;
  end_time = none;
  nest_counts = (pos 7, one_pikachu) ∷ [];
  global_counts = one_pikachu;
}

abbrev pub one_stats : StatsCollection
one_stats = record empty_stats { totals = one_period; counts = one_period ∷ [] }

abbrev room_for :
    (n : ℕ) → n < 100 → (s : Scope) (x : Cell) → count s x empty_stats.totals + n < u64_mod
room_for n small s x = omega (arith, small, count_new 0 s x)

abbrev after_adding : Outcome (StatsCollection × Bool) → StatsCollection
after_adding (done (stats, counted)) = stats
after_adding (panic f) = empty_stats

one_added :
    Counts
      (add_pokemon pikachu park empty_stats)
      pikachu
      park
      empty_stats
      (new_stats_collection-IsSound 0)
one_added =
    add_pokemon-Counts pikachu park empty_stats (new_stats_collection-IsSound 0)
      (IsCounts-IsLive _ fresh-IsCounts) (room_for 2 (omega arith))

one_stats-eq : add_pokemon pikachu park empty_stats ≡ done (one_stats, true)
unfolding add_pokemon Period.add_pokemon Counts.increment Map.lookup Map.insert inc64 eqb_key
    add_to_latest
one_stats-eq = rw (unsnoc-snoc [] (new_counts_for_time_period 0)) refl

pub one_stats-IsSound : IsSound one_stats
one_stats-IsSound =
    subst IsSound (ap after_adding (sym one_added.result ∙ one_stats-eq)) one_added.sound

abbrev one_stats-past : one_stats-IsSound.past ≡ []
one_stats-past = past-eq one_stats one_stats-IsSound [] one_period refl

abbrev one_stats-current : one_stats-IsSound.current ≡ one_period
one_stats-current = current-eq one_stats one_stats-IsSound [] one_period refl

add_pokemon-Counts_example :
    Counts
      (add_pokemon pikachu park empty_stats)
      pikachu
      park
      empty_stats
      (new_stats_collection-IsSound 0)
add_pokemon-Counts_example =
    add_pokemon-Counts pikachu park empty_stats (new_stats_collection-IsSound 0)
      (IsCounts-IsLive _ fresh-IsCounts) (room_for 2 (omega arith))

-- A new array for n + 1 periods gets room for as many again.
abbrev pub doubled : ℕ → ℕ
doubled n = suc n

abbrev half_day : Duration
half_day = pos (12 * hour)

abbrev percent : ℕ → Ratio
percent n = record { num = n; den = 1 }
