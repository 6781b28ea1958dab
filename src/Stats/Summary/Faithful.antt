-- ===== src/Stats/Summary/Faithful.antt =====
-- What the summary of a nest in processor/stats.go says is what the period counts.
use fletchling.Prelude.{
  ℕ, suc, ◌≡◌, refl, sym, ap, ◌∙◌, length, Option, some, List, [], ◌∷◌, All, ℤ, int_eq, arith,
}
use fletchling.Prelude.Map
use fletchling.Prelude.Map.{Map, IsMap, lookup-nil, lookup-cons}
use fletchling.Prelude.Time.{Duration}
use fletchling.Models.{PokemonKey, key_eq, eqb_key_iff}
use fletchling.Models.Ranking.{
  swap_all, IsRankedFrom, swap_all-IsRankedFrom, swap_all-All, HasAt, swap_all-HasAt,
  length-swap_all,
}
use fletchling.Models.Summary.{NestPokemonCountAndTotal, NestTimePeriodSummary}
use fletchling.Stats.Counts.{CountsByPokemon, value_or_zero, entries}
use fletchling.Stats.Counts.Tally.{all, one, tally, IsLive}
use fletchling.Stats.Period.{CountsForTimePeriod}
use fletchling.Stats.Summary.{nest_ranks, nest_entries, get_summary_for_nest}

-- The entry has the counts of its pokemon in the nest and in the world.
pub record IsEntry (c global : CountsByPokemon) (e : NestPokemonCountAndTotal) : Type 0 where
  pub count : e.count ≡ tally (one e.pokemon_key) c
  pub total : e.total ≡ tally all c
  pub in_world : e.global ≡ tally (one e.pokemon_key) global
  pub of_world : e.global_total ≡ tally all global

nest_entries-IsRankedFrom :
    (global : CountsByPokemon) (idx total : ℕ) (m : Map PokemonKey ℕ)
    → IsRankedFrom nest_ranks idx (nest_entries global idx total m)
unfolding nest_entries
nest_entries-IsRankedFrom global idx total [] = tt
nest_entries-IsRankedFrom global idx total ((k, n) ∷ rest) =
    (refl, nest_entries-IsRankedFrom global (suc idx) total rest)

-- The entries of a part `m` of a map whose values are those that the whole one has.
nest_entries-IsEntry :
    (c global : CountsByPokemon) (idx : ℕ) (m : Map PokemonKey ℕ)
    → IsMap m
    → ((k : PokemonKey) (n : ℕ) → Map.lookup k m ≡ some n → tally (one k) c ≡ n)
    → All (IsEntry c global) (nest_entries global idx c.total m)
unfolding nest_entries
nest_entries-IsEntry c global idx [] h same = tt
nest_entries-IsEntry c global idx ((k, n) ∷ rest) h same = (
  record {
    count = sym (same k n (ground (arith, lookup-cons k k n rest, eqb_key_iff k k)));
    total = refl;
    in_world = refl;
    of_world = refl;
  },
  nest_entries-IsEntry c global (suc idx) rest h.1
      (λ j v e. same j v (ground (arith, e, h.0, lookup-cons k j n rest, eqb_key_iff k j))),
)

-- An entry of this pokemon.
abbrev pub OfPokemon : PokemonKey → NestPokemonCountAndTotal → Type 0
OfPokemon k e = e.pokemon_key ≡ k

-- Every pokemon of the map has an entry.
abbrev pub AllHaveEntry : Map PokemonKey ℕ → List NestPokemonCountAndTotal → Type 0
AllHaveEntry m list = All (λ kn. HasAt (OfPokemon kn.0) list) m

more-AllHaveEntry :
    (m : Map PokemonKey ℕ) (e : NestPokemonCountAndTotal) (list : List NestPokemonCountAndTotal)
    → AllHaveEntry m list
    → AllHaveEntry m (e ∷ list)
more-AllHaveEntry [] e list h = tt
more-AllHaveEntry ((k, n) ∷ rest) e list ((i, a, found, same), h) =
    ((suc i, a, found, same), more-AllHaveEntry rest e list h)

nest_entries-AllHaveEntry :
    (global : CountsByPokemon) (idx total : ℕ) (m : Map PokemonKey ℕ)
    → AllHaveEntry m (nest_entries global idx total m)
unfolding nest_entries
nest_entries-AllHaveEntry global idx total [] = tt
nest_entries-AllHaveEntry global idx total ((k, n) ∷ rest) = (
  (0, _, refl, refl),
  more-AllHaveEntry rest _ _ (nest_entries-AllHaveEntry global (suc idx) total rest),
)

length-nest_entries :
    (global : CountsByPokemon) (idx total : ℕ) (m : Map PokemonKey ℕ)
    → length (nest_entries global idx total m) ≡ length m
unfolding nest_entries
length-nest_entries global idx total [] = refl
length-nest_entries global idx total ((k, n) ∷ rest) =
    ap suc (length-nest_entries global (suc idx) total rest)

swapped-AllHaveEntry :
    (m : Map PokemonKey ℕ) (swaps : List (ℕ × ℕ)) (list : List NestPokemonCountAndTotal)
    → AllHaveEntry m list
    → AllHaveEntry m (swap_all nest_ranks swaps list)
swapped-AllHaveEntry [] swaps list h = tt
swapped-AllHaveEntry ((k, n) ∷ rest) swaps list (here, h) = (
  swap_all-HasAt nest_ranks (OfPokemon k) (λ _ _ same. same) swaps list here,
  swapped-AllHaveEntry rest swaps list h,
)

-- A summary with one entry for each pokemon of the nest, ranked from 1 on: each has one, and there
-- are no more entries than pokemon.
pub record Summarizes (r : Option NestTimePeriodSummary) (c : CountsByPokemon)
    (p : CountsForTimePeriod) (duration : Duration) : Type 0 where
  pub summary : NestTimePeriodSummary
  pub result : r ≡ some summary
  pub over : summary.duration ≡ duration
  pub ends : summary.end_time ≡ p.end_time
  pub ranked : IsRankedFrom nest_ranks 0 summary.pokemon_counts_and_totals
  pub complete : AllHaveEntry (entries c.by_pokemon) summary.pokemon_counts_and_totals
  pub as_many : length summary.pokemon_counts_and_totals ≡ length (entries c.by_pokemon)
  pub faithful : All (IsEntry c p.global_counts) summary.pokemon_counts_and_totals

set_rank-IsEntry :
    (c global : CountsByPokemon) (n : ℕ) (e : NestPokemonCountAndTotal)
    → IsEntry c global e
    → IsEntry c global (nest_ranks.set_rank n e)
set_rank-IsEntry c global n e h = record {
  count = h.count;
  total = h.total;
  in_world = h.in_world;
  of_world = h.of_world;
}

-- For a nest that the period knows and whose counts have a map, GetSummaryForNest returns a
-- summary over the given duration with an entry for every pokemon of that map, and as many
-- entries as it has pokemon, which, whatever swaps the sort makes, are ranked from 1 on and each
-- carry the count of their pokemon in the nest and in the world and both totals.
pub get_summary_for_nest-Summarizes :
    (sorter : List NestPokemonCountAndTotal → List (ℕ × ℕ)) (id : ℤ) (duration : Duration)
    (p : CountsForTimePeriod) (c : CountsByPokemon)
    → Map.lookup id p.nest_counts ≡ some c
    → IsLive c
    → Summarizes (get_summary_for_nest sorter id duration p) c p duration
unfolding get_summary_for_nest
get_summary_for_nest-Summarizes sorter id duration p c found (m, is, is_map) =
    let list = nest_entries p.global_counts 0 c.total (entries c.by_pokemon) in
    record {
      summary = record {
        start_time = p.start_time;
        end_time = p.end_time;
        duration = duration;
        pokemon_counts_and_totals = swap_all nest_ranks (sorter list) list;
      };
      result = rw found refl;
      over = refl;
      ends = refl;
      ranked =
          swap_all-IsRankedFrom nest_ranks (sorter list) list
            (nest_entries-IsRankedFrom p.global_counts 0 c.total (entries c.by_pokemon));
      complete =
          swapped-AllHaveEntry (entries c.by_pokemon) (sorter list) list
            (nest_entries-AllHaveEntry p.global_counts 0 c.total (entries c.by_pokemon));
      as_many =
          length-swap_all nest_ranks (sorter list) list
          ∙ length-nest_entries p.global_counts 0 c.total (entries c.by_pokemon);
      faithful =
          swap_all-All nest_ranks (IsEntry c p.global_counts) (set_rank-IsEntry c p.global_counts)
            (sorter list) list
            (nest_entries-IsEntry c p.global_counts 0 (entries c.by_pokemon) (rw is is_map)
              (λ k n e. ap value_or_zero e));
    }
