-- ===== src/Stats/Summary.antt =====
-- GetSummaryForNest and GetOrderedGlobalPokemon of processor/stats.go, and the entries of
-- processor/sorter.go. `sorter` gives the swaps by which sort.Sort orders a list.
pub mod Faithful
use fletchling.Prelude.{
  ℕ, zero, suc, ◌<◌, ℤ, int_eq, Bool, Option, none, some, List, [], ◌∷◌, refl, if◌then◌else◌, eqb,
  ltb, ltb_ℤ,
}
use fletchling.Prelude.Int.{eqb_ℤ}
use fletchling.Prelude.Map
use fletchling.Prelude.Map.{Map}
use fletchling.Prelude.Time.{Duration}
use fletchling.Models.{PokemonKey, key_eq}
use fletchling.Models.Ranking.{Ranked, swap_all}
use fletchling.Models.Summary.{NestPokemonCountAndTotal, NestTimePeriodSummary}
use fletchling.Stats.Counts.{CountsByPokemon, value_or_zero, entries}
use fletchling.Stats.Period.{CountsForTimePeriod}

pub record PokemonCountAndTotal : Type 0 where
  pub rank : ℕ
  pub pokemon_key : PokemonKey
  pub count : ℕ
  pub total : ℕ

-- Count down, then the pokemon and the form up.
unfoldable pub less : PokemonCountAndTotal → PokemonCountAndTotal → Bool
less a b =
    if eqb a.count b.count
    then (if eqb_ℤ a.pokemon_key.pokemon_id b.pokemon_key.pokemon_id
        then ltb_ℤ a.pokemon_key.form_id b.pokemon_key.form_id
        else ltb_ℤ a.pokemon_key.pokemon_id b.pokemon_key.pokemon_id)
    else ltb b.count a.count

abbrev pub global_ranks : Ranked PokemonCountAndTotal
global_ranks = record {
  rank_of = λ p. p.rank;
  set_rank = λ n p. record p { rank = n };
  rank_of-set_rank = λ n p. refl;
}

abbrev pub nest_ranks : Ranked NestPokemonCountAndTotal
nest_ranks = record {
  rank_of = λ p. p.rank;
  set_rank = λ n p. record p { rank = n };
  rank_of-set_rank = λ n p. refl;
}

-- The loops over a map, from index `idx` on.
unfoldable pub global_entries : ℕ → ℕ → Map PokemonKey ℕ → List PokemonCountAndTotal
global_entries idx total [] = []
global_entries idx total ((k, n) ∷ rest) =
    record { rank = suc idx; pokemon_key = k; count = n; total = total }
    ∷ global_entries (suc idx) total rest

unfoldable pub get_ordered_global_pokemon :
    (List PokemonCountAndTotal → List (ℕ × ℕ)) → CountsForTimePeriod → List PokemonCountAndTotal
unfolding global_entries
get_ordered_global_pokemon sorter p =
    let list = global_entries 0 p.global_counts.total (entries p.global_counts.by_pokemon) in
    swap_all global_ranks (sorter list) list

unfoldable pub nest_entries :
    CountsByPokemon → ℕ → ℕ → Map PokemonKey ℕ → List NestPokemonCountAndTotal
nest_entries global idx total [] = []
nest_entries global idx total ((k, n) ∷ rest) =
    record {
      rank = suc idx;
      pokemon_key = k;
      count = n;
      total = total;
      global = value_or_zero (Map.lookup k (entries global.by_pokemon));
      global_total = global.total;
    }
    ∷ nest_entries global (suc idx) total rest

abbrev summary_of :
    (List NestPokemonCountAndTotal → List (ℕ × ℕ))
    → Duration
    → CountsForTimePeriod
    → Option CountsByPokemon
    → Option NestTimePeriodSummary
summary_of sorter duration p none = none
summary_of sorter duration p (some c) =
    let list = nest_entries p.global_counts 0 c.total (entries c.by_pokemon) in
    some (record {
      start_time = p.start_time;
      end_time = p.end_time;
      duration = duration;
      pokemon_counts_and_totals = swap_all nest_ranks (sorter list) list;
    })

unfoldable pub get_summary_for_nest :
    (List NestPokemonCountAndTotal → List (ℕ × ℕ))
    → ℤ
    → Duration
    → CountsForTimePeriod
    → Option NestTimePeriodSummary
unfolding nest_entries
get_summary_for_nest sorter id duration p =
    summary_of sorter duration p (Map.lookup id p.nest_counts)
