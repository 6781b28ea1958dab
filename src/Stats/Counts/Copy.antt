-- ===== src/Stats/Counts/Copy.antt =====
-- `clone` of processor/stats.go.
use fletchling.Prelude.{ℕ, ◌≡◌, refl, none, some, [], ◌∷◌, arith}
use fletchling.Prelude.Map
use fletchling.Prelude.Map.{
  Map, IsMap, IsMap-insert, lookup-nil, lookup-cons, lookup-insert, lookup-delete,
}
use fletchling.Models.{PokemonKey, key_eq, eqb_key_iff}
use fletchling.Stats.Counts.{entries, CountsByPokemon, copy_entries, clone}
use fletchling.Stats.Counts.Tally.{IsSpent, IsLive, all, Cell, all, one, tally, IsCounts}

value-copy_entries :
    (m acc : Map PokemonKey ℕ)
    → IsMap m
    → (k : PokemonKey)
    → Map.lookup k (copy_entries m acc)
      ≡ (elim (Map.lookup k m) [ none ↦ Map.lookup k acc | some v ↦ some v ])
unfolding copy_entries
value-copy_entries [] acc h k = rw lookup-nil refl
value-copy_entries ((j, v) ∷ rest) acc h k = ground (
  arith,
  value-copy_entries rest (Map.insert j v acc) h.1 k,
  lookup-insert j k v acc,
  lookup-cons j k v rest,
  eqb_key_iff j k,
  h.0,
)

copy_entries-IsMap : (m acc : Map PokemonKey ℕ) → IsMap acc → IsMap (copy_entries m acc)
unfolding copy_entries
copy_entries-IsMap [] acc h = h
copy_entries-IsMap ((j, v) ∷ rest) acc h =
    copy_entries-IsMap rest (Map.insert j v acc) (IsMap-insert j v acc h)

-- A clone counts the same.
pub tally-clone : (c : CountsByPokemon) → IsLive c → (x : Cell) → tally x (clone c) ≡ tally x c
unfolding clone
tally-clone c h all = refl
tally-clone c (m, is, is_map) (one k) =
    ground (arith, is, value-copy_entries m [] is_map k, lookup-nil {V = ℕ} k)

pub IsCounts-IsLive : (c : CountsByPokemon) → IsCounts c → IsLive c
IsCounts-IsLive c h = (h.pairs, h.are, h.is_map)

-- A clone can be written to, also where the counts could not.
pub clone-IsLive : (c : CountsByPokemon) → IsLive (clone c)
unfolding clone
clone-IsLive c =
    (copy_entries (entries c.by_pokemon) [], refl, copy_entries-IsMap (entries c.by_pokemon) [] tt)

pub clone-IsCounts : (c : CountsByPokemon) → IsCounts c → IsCounts (clone c)
clone-IsCounts c h =
    let (m, is, is_map) = clone-IsLive c in
    record {
      pairs = m;
      are = is;
      is_map = is_map;
      below = λ k.
          let copied = tally-clone c (IsCounts-IsLive c h) in
          omega (arith, copied (one k), copied all, h.below k);
    }

pub tally-clone_spent :
    (c : CountsByPokemon) → IsSpent c → (x : Cell) → tally x (clone c) ≡ tally x c
unfolding clone copy_entries
tally-clone_spent c h all = refl
tally-clone_spent c h (one k) = ground (arith, h.0)
