-- ===== src/Stats/Counts/Tally.antt =====
-- What CountsByPokemon counts, cell by cell, and what `increment`, `subtract` and `clone` of
-- processor/stats.go do to every cell.
use fletchling.Prelude.{
  none, [], ℕ, ◌+◌, ◌≤◌, ◌<◌, ◌≡◌, refl, some, arith, if◌then◌else◌, done, ◌==◌,
}
use fletchling.Prelude.Word.{inc64_lem, u64_mod}
use fletchling.Prelude.Map
use fletchling.Prelude.Map.{
  Map, IsMap, IsMap-insert, lookup-nil, lookup-cons, lookup-insert, lookup-nil, lookup-delete,
}
use fletchling.Models.{PokemonKey, key_eq, eqb_key_iff}
use fletchling.Stats.Counts.{
  CountsByPokemon, new_counts_by_pokemon, value_or_zero, entries, increment,
}

-- A cell of the counts: all pokemon, or one kind.
pub data Cell : Type 0 where
  all : Cell
  one : PokemonKey → Cell

abbrev pub tally : Cell → CountsByPokemon → ℕ
tally all c = c.total
tally (one k) c = value_or_zero (Map.lookup k (entries c.by_pokemon))

-- What one more pokemon adds to a cell.
abbrev pub hits : Cell → PokemonKey → ℕ
hits all k = 1
hits (one j) k = if k == j then 1 else 0

pub record IsCounts (c : CountsByPokemon) : Type 0 where
  pub pairs : Map PokemonKey ℕ
  pub are : c.by_pokemon ≡ some pairs
  pub is_map : IsMap pairs
  pub below : (k : PokemonKey) → tally (one k) c ≤ c.total

-- The map can be written to.
abbrev pub IsLive : CountsByPokemon → Type 0
IsLive c = (m : Map PokemonKey ℕ) × (c.by_pokemon ≡ some m) × IsMap m

-- What `subtract` leaves of counts that are used up: a nil map, to which a write panics.
abbrev pub IsSpent : CountsByPokemon → Type 0
IsSpent c = (c.by_pokemon ≡ none) × (c.total ≡ 0)

unfoldable pub incremented : PokemonKey → CountsByPokemon → Map PokemonKey ℕ → CountsByPokemon
incremented k c m = record {
  total = c.total + 1;
  by_pokemon = some (Map.insert k (tally (one k) c + 1) m);
}

module _ (k : PokemonKey) (c : CountsByPokemon) (m : Map PokemonKey ℕ)
    (live : c.by_pokemon ≡ some m) where
  pub increment-eq :
      ((x : Cell) → tally x c + 1 < u64_mod) → increment k c ≡ done (incremented k c m)
  unfolding increment incremented
  increment-eq room =
      ground (arith, live, inc64_lem c.total (room all), inc64_lem (tally (one k) c) (room (one k)))

  pub tally-incremented : (x : Cell) → tally x (incremented k c m) ≡ tally x c + hits x k
  unfolding incremented
  tally-incremented all = refl
  tally-incremented (one j) =
      ground (arith, live, lookup-insert k j (tally (one k) c + 1) m, eqb_key_iff k j)

  pub incremented-IsCounts : IsCounts c → IsCounts (incremented k c m)
  unfolding incremented
  incremented-IsCounts h = record {
    pairs = Map.insert k (tally (one k) c + 1) m;
    are = refl;
    is_map = IsMap-insert k (tally (one k) c + 1) m (rw pairs-eq h.is_map);
    below =
        λ j. ground (arith, live, lookup-insert k j (tally (one k) c + 1) m, h.below k, h.below j);
  }
    where
      pairs-eq : m ≡ h.pairs
      pairs-eq = cc (live, h.are)

pub incremented-IsLive :
    (k : PokemonKey) (c : CountsByPokemon) (m : Map PokemonKey ℕ)
    → IsMap m
    → IsLive (incremented k c m)
unfolding incremented
incremented-IsLive k c m h =
    (Map.insert k (tally (one k) c + 1) m, refl, IsMap-insert k (tally (one k) c + 1) m h)

-- The counts of a nest that was not seen yet.
pub fresh-IsCounts : IsCounts new_counts_by_pokemon
fresh-IsCounts = record {
  pairs = [];
  are = refl;
  is_map = tt;
  below = λ k. rw lookup-nil (omega arith);
}
