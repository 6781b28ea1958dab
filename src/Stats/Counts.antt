-- ===== src/Stats/Counts.antt =====
-- CountsByPokemon of processor/stats.go. `none` is the nil map: it reads as an empty one, and a
-- write to it panics. Logging is left out.
pub mod Tally
pub mod Subtraction
pub mod Copy
use fletchling.Prelude.{
  ℕ, Bool, true, false, Option, none, some, [], ◌∷◌, eqb, if◌then◌else◌, Outcome, done, panic,
  nil_map, ◌>>=◌,
}
use fletchling.Prelude.Word.{inc64, sub64}
use fletchling.Prelude.Map
use fletchling.Prelude.Map.{Map}
use fletchling.Models.{PokemonKey, key_eq}

pub record CountsByPokemon : Type 0 where
  pub total : ℕ
  pub by_pokemon : Option (Map PokemonKey ℕ)

abbrev pub new_counts_by_pokemon : CountsByPokemon
new_counts_by_pokemon = record { total = 0; by_pokemon = some [] }

-- `m[k]` reads a missing entry as 0.
abbrev pub value_or_zero : Option ℕ → ℕ
value_or_zero none = 0
value_or_zero (some n) = n

abbrev pub entries : Option (Map PokemonKey ℕ) → Map PokemonKey ℕ
entries none = []
entries (some m) = m

-- `counts.Total++; counts.ByPokemon[k]++`
increment_map : PokemonKey → ℕ → Option (Map PokemonKey ℕ) → Outcome CountsByPokemon
increment_map k total none = panic nil_map
increment_map k total (some m) = done (record {
  total = total;
  by_pokemon = some (Map.insert k (inc64 (value_or_zero (Map.lookup k m))) m);
})

unfoldable pub increment : PokemonKey → CountsByPokemon → Outcome CountsByPokemon
unfolding increment_map
increment k c = increment_map k (inc64 c.total) c.by_pokemon

-- One round of the loop of `subtract`: `counts.ByPokemon[k] -= v`, and the entry goes at 0.
unfoldable pub subtract_entry : PokemonKey → ℕ → Map PokemonKey ℕ → Map PokemonKey ℕ
subtract_entry k v m =
    let left = sub64 (value_or_zero (Map.lookup k m)) v in
    if eqb left 0 then Map.delete k m else Map.insert k left m

unfoldable pub subtract_entries : Map PokemonKey ℕ → Map PokemonKey ℕ → Map PokemonKey ℕ
unfolding subtract_entry
subtract_entries [] m = m
subtract_entries ((k, v) ∷ rest) m = subtract_entries rest (subtract_entry k v m)

-- The loop writes, so it panics on a nil map unless there is nothing to write.
unfoldable pub subtract_loop :
    Map PokemonKey ℕ → Option (Map PokemonKey ℕ) → Outcome (Option (Map PokemonKey ℕ))
unfolding subtract_entries
subtract_loop others (some m) = done (some (subtract_entries others m))
subtract_loop [] none = done none
subtract_loop (e ∷ rest) none = panic nil_map

-- The second part is true if the counts are empty now. A uint64 is never below 0, so the two
-- branches that would log a negative count are never taken.
unfoldable pub subtract : CountsByPokemon → CountsByPokemon → Outcome (CountsByPokemon × Bool)
unfolding subtract_loop
subtract c other =
    let total = sub64 c.total other.total in
    if eqb total 0 then done (record { total = total; by_pokemon = none }, true) else do
      left ← subtract_loop (entries other.by_pokemon) c.by_pokemon
      done (record { total = total; by_pokemon = left }, false)

-- The copy of a nil map is an empty one.
copy_entries : Map PokemonKey ℕ → Map PokemonKey ℕ → Map PokemonKey ℕ
copy_entries [] m = m
copy_entries ((k, v) ∷ rest) m = copy_entries rest (Map.insert k v m)

unfoldable pub clone : CountsByPokemon → CountsByPokemon
unfolding copy_entries
clone c = record { total = c.total; by_pokemon = some (copy_entries (entries c.by_pokemon) []) }
