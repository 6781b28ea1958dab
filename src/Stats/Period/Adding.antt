-- ===== src/Stats/Period/Adding.antt =====
-- AddPokemon of processor/stats.go counts one pokemon, once in the world and once for each time that
-- its nest was matched.
use fletchling.Prelude.{
  ℕ, suc, ◌+◌, ◌<◌, ◌≡◌, refl, Bool, true, false, some, List, [], ◌∷◌, arith, ℤ, int_eq, ◌==◌,
  if◌then◌else◌, Outcome, done, Option-cases, Bool-cases, inl, inr, length, subst,
}
use fletchling.Prelude.Word.{u64_mod}
use fletchling.Prelude.Map
use fletchling.Prelude.Int.{eqb_ℤ_iff}
use fletchling.Prelude.Map.{Map, IsMap, IsMap-insert, lookup-insert}
use fletchling.Models.{PokemonKey, key_eq}
use fletchling.Stats.Counts.{CountsByPokemon, new_counts_by_pokemon}
use fletchling.Stats.Counts.Tally.{
  Cell, tally, IsLive, incremented, increment-eq, tally-incremented,
}
use fletchling.Stats.Period.{
  CountsForTimePeriod, counts_or_new, add_to_nest, add_to_nests, add_pokemon,
}
use fletchling.Stats.Period.Tally.{Scope, world, nest, count, gain, gain-le-length}

abbrev nest_tally : ℤ → Cell → Map ℤ CountsByPokemon → ℕ
nest_tally id x nests = tally x (counts_or_new (Map.lookup id nests))

-- `P` is what the loop needs of the counts of a nest, `E` what it keeps of those in the map.
module _ (P E : CountsByPokemon → Type 0) (weaken : (c : CountsByPokemon) → E c → P c)
    (start : P new_counts_by_pokemon) (live : (c : CountsByPokemon) → P c → IsLive c)
    (grow : (k : PokemonKey) (c : CountsByPokemon) (m : Map PokemonKey ℕ)
      → c.by_pokemon ≡ some m
      → IsMap m
      → P c
      → E (incremented k c m)) where
  abbrev Each : Map ℤ CountsByPokemon → Type 0
  Each nests = (id : ℤ) (c : CountsByPokemon) → Map.lookup id nests ≡ some c → E c

  record Counted (r : Outcome (Map ℤ CountsByPokemon)) (k : PokemonKey) (ids : List ℤ)
      (nests : Map ℤ CountsByPokemon) : Type 0 where
    after : Map ℤ CountsByPokemon
    result : r ≡ done after
    tallies :
        (id : ℤ) (x : Cell) → nest_tally id x after ≡ nest_tally id x nests + gain (nest id) x k ids
    each : Each after
    is_map : IsMap nests → IsMap after

  found-P :
      (nests : Map ℤ CountsByPokemon) (id : ℤ)
      → Each nests
      → P (counts_or_new (Map.lookup id nests))
  found-P nests id h = elim (Option-cases (Map.lookup id nests)) [
    | inl e ↦ rw e start
    | inr (c, e) ↦ rw e (weaken c (h id c e))
  ]

  module _ (k : PokemonKey) (id : ℤ) (c : CountsByPokemon) (m : Map PokemonKey ℕ)
      (nests : Map ℤ CountsByPokemon) where
    found_insert :
        (j : ℤ)
        → Map.lookup j (Map.insert id (incremented k c m) nests)
          ≡ (if id == j then some (incremented k c m) else Map.lookup j nests)
    found_insert j = lookup-insert id j (incremented k c m) nests

    Each-insert :
        c.by_pokemon ≡ some m
        → IsMap m
        → P c
        → Each nests
        → Each (Map.insert id (incremented k c m) nests)
    Each-insert is is_map p h j d e = elim (Bool-cases (id == j)) [
      | inl same ↦
          let same_counts : incremented k c m ≡ d = ground (arith, found_insert j, same, e) in
          subst E same_counts (grow k c m is is_map p)
      | inr other ↦ h j d (ground (arith, found_insert j, other, e))
    ]

  add_to_nest-Counted :
      (k : PokemonKey) (id : ℤ) (nests : Map ℤ CountsByPokemon)
      → Each nests
      → ((j : ℤ) (x : Cell) → nest_tally j x nests + 1 < u64_mod)
      → Counted (add_to_nest k id nests) k (id ∷ []) nests
  unfolding add_to_nest
  add_to_nest-Counted k id nests h room =
      let p = found-P nests id h in
      let (m, is, is_map) = live _ p in
      let c = counts_or_new (Map.lookup id nests) in
      record {
        after = Map.insert id (incremented k c m) nests;
        result = rw (increment-eq k c m is (room id)) refl;
        tallies = λ j x. ground (
          arith,
          lookup-insert id j (incremented k c m) nests,
          eqb_ℤ_iff id j,
          tally-incremented k c m is x,
        );
        each = Each-insert k id c m nests is is_map p h;
        is_map = IsMap-insert id (incremented k c m) nests;
      }

  add_to_nests-Counted :
      (k : PokemonKey) (ids : List ℤ) (nests : Map ℤ CountsByPokemon)
      → Each nests
      → ((j : ℤ) (x : Cell) → nest_tally j x nests + length ids < u64_mod)
      → Counted (add_to_nests k ids nests) k ids nests
  unfolding add_to_nests
  add_to_nests-Counted k [] nests h room = record {
    after = nests;
    result = refl;
    tallies = λ j x. omega arith;
    each = h;
    is_map = λ a. a;
  }
  add_to_nests-Counted k (id ∷ ids) nests h room =
      let one = add_to_nest-Counted k id nests h (λ j x. omega (arith, room j x)) in
      let rest =
        add_to_nests-Counted k ids one.after one.each
          (λ j x. omega (arith, room j x, one.tallies j x, gain-le-length j x k (id ∷ []))) in
      record {
        after = rest.after;
        result = rw one.result rest.result;
        tallies = λ j x. omega (arith, one.tallies j x, rest.tallies j x);
        each = rest.each;
        is_map = λ a. rest.is_map (one.is_map a);
      }

  pub record Added (r : Outcome (CountsForTimePeriod × Bool)) (k : PokemonKey) (ids : List ℤ)
      (p : CountsForTimePeriod) : Type 0 where
    pub after : CountsForTimePeriod
    pub result : r ≡ done (after, true)
    pub counts : (s : Scope) (x : Cell) → count s x after ≡ count s x p + gain s x k ids
    pub global : E after.global_counts
    pub nests : (id : ℤ) (c : CountsByPokemon) → Map.lookup id after.nest_counts ≡ some c → E c
    pub nests_map : IsMap p.nest_counts → IsMap after.nest_counts
    pub start_time : after.start_time ≡ p.start_time
    pub end_time : after.end_time ≡ p.end_time
    pub frozen : after.frozen ≡ p.frozen

  pub add_pokemon-Added :
      (k : PokemonKey) (ids : List ℤ) (p : CountsForTimePeriod)
      → p.frozen ≡ false
      → P p.global_counts
      → ((id : ℤ) (c : CountsByPokemon) → Map.lookup id p.nest_counts ≡ some c → E c)
      → ((s : Scope) (x : Cell) → count s x p + suc (length ids) < u64_mod)
      → Added (add_pokemon k ids p) k ids p
  unfolding add_pokemon
  add_pokemon-Added k ids p thawed g each room =
      let (m, is, is_map) = live p.global_counts g in
      let rest =
        add_to_nests-Counted k ids p.nest_counts each (λ j x. omega (arith, room (nest j) x)) in
      let one = increment-eq k p.global_counts m is (λ x. omega (arith, room world x)) in
      record {
        after = record p {
          global_counts = incremented k p.global_counts m;
          nest_counts = rest.after;
        };
        result = rw (thawed, one, rest.result) refl;
        counts = elim [
          | world ↦ tally-incremented k p.global_counts m is
          | nest id ↦ rest.tallies id
        ];
        global = grow k p.global_counts m is is_map g;
        nests = rest.each;
        nests_map = rest.is_map;
        start_time = refl;
        end_time = refl;
        frozen = refl;
      }
