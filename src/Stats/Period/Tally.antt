-- ===== src/Stats/Period/Tally.antt =====
-- What a period counts: a cell of the counts of a nest, or of the whole world.
use fletchling.Prelude.{
  ◌⊎◌, inl, inr, length, ◌≤◌, arith, ℕ, ◌<◌, ◌≡◌, some, ℤ, int_eq, [], ◌==◌, if◌then◌else◌, List,
  ◌∷◌, ◌+◌,
}
use fletchling.Prelude.Map
use fletchling.Prelude.Map.{IsMap}
use fletchling.Prelude.Word.{u64_mod}
use fletchling.Models.{PokemonKey, key_eq}
use fletchling.Stats.Counts.{CountsByPokemon}
use fletchling.Stats.Counts.Tally.{hits, all, one, Cell, tally, IsCounts, IsLive, IsSpent}
use fletchling.Stats.Period.{CountsForTimePeriod, counts_or_new}

pub data Scope : Type 0 where
  world : Scope
  nest : ℤ → Scope

abbrev pub counts_of : Scope → CountsForTimePeriod → CountsByPokemon
counts_of world p = p.global_counts
counts_of (nest id) p = counts_or_new (Map.lookup id p.nest_counts)

-- How many pokemon of a kind, or of all kinds, a period counts in a nest or in the world.
abbrev pub count : Scope → Cell → CountsForTimePeriod → ℕ
count s x p = tally x (counts_of s p)

-- A period that `AddPokemon` has filled.
pub record IsPeriod (p : CountsForTimePeriod) : Type 0 where
  pub global : IsCounts p.global_counts
  pub nests_map : IsMap p.nest_counts
  pub nests :
      (id : ℤ) (c : CountsByPokemon)
      → Map.lookup id p.nest_counts ≡ some c
      → IsCounts c × (0 < c.total)

-- Running totals: no nest is kept with nothing in it.
pub record IsTotals (t : CountsForTimePeriod) : Type 0 where
  pub live : (id : ℤ) (c : CountsByPokemon) → Map.lookup id t.nest_counts ≡ some c → IsLive c
  pub nests_map : IsMap t.nest_counts
  pub global : IsSpent t.global_counts ⊎ IsLive t.global_counts
  pub bound : (s : Scope) (x : Cell) → count s x t < u64_mod

-- What one more pokemon of kind `k`, matched by the nests `ids`, adds to a cell of a scope.
abbrev pub gain : Scope → Cell → PokemonKey → List ℤ → ℕ
gain world x k ids = hits x k
gain (nest id) x k [] = 0
gain (nest id) x k (j ∷ ids) = (if j == id then hits x k else 0) + gain (nest id) x k ids

pub gain-le-length :
    (id : ℤ) (x : Cell) (k : PokemonKey) (ids : List ℤ) → gain (nest id) x k ids ≤ length ids
gain-le-length id x k [] = omega arith
gain-le-length id (all) k (j ∷ ids) = ground (arith, gain-le-length id all k ids)
gain-le-length id (one i) k (j ∷ ids) = ground (arith, gain-le-length id (one i) k ids)

-- Totals that count something can be written to.
pub IsTotals-IsLive :
    (t : CountsForTimePeriod) → IsTotals t → 0 < t.global_counts.total → IsLive t.global_counts
IsTotals-IsLive t h positive = elim h.global [
  | inl spent ↦ absurd (omega (arith, spent.1))
  | inr live ↦ live
]
