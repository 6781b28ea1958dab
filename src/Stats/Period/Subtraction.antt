-- ===== src/Stats/Period/Subtraction.antt =====
-- `subtract` of a period from the totals, in processor/stats.go, removes exactly what the period
-- counted, in every nest and in the world, and meets no nil pointer and no nil map.
use fletchling.Prelude.{
  ℕ, ◌+◌, ◌≤◌, ◌<◌, ◌≡◌, refl, Bool, true, false, none, some, [], ◌∷◌, arith, ℤ, int_eq, ◌==◌,
  if◌then◌else◌, Outcome, done, Option-cases, Bool-cases, inl, inr, eqb, subst, ap, ◌≢◌,
}
use fletchling.Prelude.Word.{u64_mod}
use fletchling.Prelude.Map
use fletchling.Prelude.Int.{eqb_ℤ_iff}
use fletchling.Prelude.Map.{
  Map, IsMap, IsMap-insert, IsMap-delete, lookup-nil, lookup-cons, lookup-insert, lookup-delete,
}
use fletchling.Models.{PokemonKey}
use fletchling.Stats.Counts.{CountsByPokemon, new_counts_by_pokemon}
use fletchling.Stats.Counts.Tally.{Cell, all, one, tally, IsCounts, IsLive, IsSpent}
use fletchling.Stats.Counts.Subtraction.{IsSplit, subtract-Leaves}
use fletchling.Stats.Period.{
  CountsForTimePeriod, counts_or_new, subtract_nest, subtract_nests, subtract,
}
use fletchling.Stats.Period.Tally.{Scope, world, nest, count, IsPeriod, IsTotals, IsTotals-IsLive}

abbrev nest_tally : ℤ → Cell → Map ℤ CountsByPokemon → ℕ
nest_tally id x nests = tally x (counts_or_new (Map.lookup id nests))

tally_new : (x : Cell) → tally x new_counts_by_pokemon ≡ 0
tally_new all = refl
tally_new (one k) = rw lookup-nil refl

abbrev EachLive : Map ℤ CountsByPokemon → Type 0
EachLive nests = (id : ℤ) (c : CountsByPokemon) → Map.lookup id nests ≡ some c → IsLive c

-- What is left of each nest once the nests `others` are subtracted.
record Fits (others nests : Map ℤ CountsByPokemon) (left : ℤ → Cell → ℕ) : Type 0 where
  sum : (id : ℤ) (x : Cell) → nest_tally id x nests ≡ nest_tally id x others + left id x
  bound : (id : ℤ) (x : Cell) → nest_tally id x nests < u64_mod
  below : (id : ℤ) (k : PokemonKey) → left id (one k) ≤ left id all
  live : EachLive nests
  is_map : IsMap nests

record NestsLeft (r : Outcome (Map ℤ CountsByPokemon)) (left : ℤ → Cell → ℕ) : Type 0 where
  after : Map ℤ CountsByPokemon
  result : r ≡ done after
  tallies : (id : ℤ) (x : Cell) → nest_tally id x after ≡ left id x
  live : EachLive after
  is_map : IsMap after

module _ (id : ℤ) (o : CountsByPokemon) (others nests : Map ℤ CountsByPokemon) (left : ℤ → Cell → ℕ)
    (fresh : Map.lookup id others ≡ none) (f : Fits ((id, o) ∷ others) nests left) (ok : IsCounts o)
    (positive : 0 < o.total) where
  own_tally : (x : Cell) → nest_tally id x ((id, o) ∷ others) ≡ tally x o
  own_tally x = ground (arith, lookup-cons id id o others, eqb_ℤ_iff id id)

  own-IsSplit : (c : CountsByPokemon) → Map.lookup id nests ≡ some c → IsSplit c o (left id)
  own-IsSplit c e = record {
    sum = λ x. ground (arith, f.sum id x, own_tally x, e);
    bound = λ x. ground (arith, f.bound id x, e);
    below = f.below id;
  }

  absent : Map.lookup id nests ≢ none
  absent e = ground (arith, f.sum id all, own_tally all, e, positive)

  abbrev updated : CountsByPokemon → Bool → Map ℤ CountsByPokemon
  updated c emptied = if emptied then Map.delete id nests else Map.insert id c nests

  module _ (c rest : CountsByPokemon) (emptied : Bool)
      (tallies : (x : Cell) → tally x rest ≡ left id x)
      (empty : emptied ≡ eqb (left id all) 0) where
    emptied_tally : (x : Cell) → emptied ≡ true → left id x ≡ 0
    emptied_tally all e = ground arith
    emptied_tally (one k) e = ground (arith, f.below id k)

    updated_tally :
        (j : ℤ) (x : Cell)
        → nest_tally j x (updated rest emptied)
          ≡ (if id == j then left id x else nest_tally j x nests)
    updated_tally j x = elim (Bool-cases emptied) [
      | inl e ↦ rw e (ground (arith, lookup-delete id j nests, emptied_tally x e, tally_new x))
      | inr e ↦ rw e (ground (arith, lookup-insert id j rest nests, tallies x))
    ]

    updated-EachLive : (emptied ≡ false → IsLive rest) → EachLive (updated rest emptied)
    updated-EachLive live j d e = elim (Bool-cases emptied) [
      | inl gone ↦ f.live j d (ground (arith, lookup-delete id j nests, gone, e))
      | inr kept ↦ elim (Bool-cases (id == j)) [
        | inl same ↦
            let same_counts : rest ≡ d =
              ground (arith, lookup-insert id j rest nests, kept, same, e) in
            subst IsLive same_counts (live kept)
        | inr other ↦ f.live j d (ground (arith, lookup-insert id j rest nests, kept, other, e))
      ]
    ]

    updated-IsMap : IsMap (updated rest emptied)
    updated-IsMap = elim (Bool-cases emptied) [
      | inl e ↦ rw e (IsMap-delete id nests f.is_map)
      | inr e ↦ rw e (IsMap-insert id rest nests f.is_map)
    ]

    updated-Fits : (emptied ≡ false → IsLive rest) → Fits others (updated rest emptied) left
    updated-Fits live = record {
      sum = λ j x. ground (
        arith,
        updated_tally j x,
        f.sum j x,
        lookup-cons id j o others,
        eqb_ℤ_iff id j,
        fresh,
        tally_new x,
      );
      bound = λ j x. ground (arith, updated_tally j x, f.bound j x, f.bound id x, f.sum id x);
      below = f.below;
      live = updated-EachLive live;
      is_map = updated-IsMap;
    }

  subtract_nest-Fits :
      (after : Map ℤ CountsByPokemon) × (subtract_nest id o nests ≡ done after)
      × Fits others after left
  unfolding subtract_nest
  subtract_nest-Fits = elim (Option-cases (Map.lookup id nests)) [
    | inl e ↦ absurd (absent e)
    | inr (c, e) ↦
        let l = subtract-Leaves c o (left id) (own-IsSplit c e) ok (λ _. f.live id c e) in
        (
          updated l.rest l.emptied,
          rw e (rw l.result refl),
          updated-Fits c l.rest l.emptied l.tallies l.empty l.live,
        )
  ]

abbrev Positive : Map ℤ CountsByPokemon → Type 0
Positive others =
    (id : ℤ) (c : CountsByPokemon) → Map.lookup id others ≡ some c → IsCounts c × (0 < c.total)

subtract_nests-NestsLeft :
    (others nests : Map ℤ CountsByPokemon) (left : ℤ → Cell → ℕ)
    → Fits others nests left
    → IsMap others
    → Positive others
    → NestsLeft (subtract_nests others nests) left
unfolding subtract_nests
subtract_nests-NestsLeft [] nests left f m each = record {
  after = nests;
  result = refl;
  tallies = λ id x.
      omega (arith, f.sum id x, ap (tally x) (ap counts_or_new (lookup-nil id)), tally_new x);
  live = f.live;
  is_map = f.is_map;
}
subtract_nests-NestsLeft ((id, o) ∷ others) nests left f m each =
    let own = each id o (ground (arith, lookup-cons id id o others, eqb_ℤ_iff id id)) in
    let (after, result, fits) = subtract_nest-Fits id o others nests left m.0 f own.0 own.1 in
    let rest =
      subtract_nests-NestsLeft others after left fits m.1
        (λ i d h. each i d (ground (arith, lookup-cons id i o others, eqb_ℤ_iff id i, m.0, h))) in
    record {
      after = rest.after;
      result = rw result rest.result;
      tallies = rest.tallies;
      live = rest.live;
      is_map = rest.is_map;
    }

-- Totals that split into a period and what is left.
pub record Covers (t o : CountsForTimePeriod) (left : Scope → Cell → ℕ) : Type 0 where
  pub sum : (s : Scope) (x : Cell) → count s x t ≡ count s x o + left s x
  pub below : (s : Scope) (k : PokemonKey) → left s (one k) ≤ left s all

pub record Remainder (r : Outcome CountsForTimePeriod) (t : CountsForTimePeriod)
    (left : Scope → Cell → ℕ) : Type 0 where
  pub after : CountsForTimePeriod
  pub result : r ≡ done after
  pub counts : (s : Scope) (x : Cell) → count s x after ≡ left s x
  pub totals : IsTotals after
  pub spent : left world all ≡ 0 → IsSpent after.global_counts
  pub start_time : after.start_time ≡ t.start_time
  pub end_time : after.end_time ≡ t.end_time
  pub frozen : after.frozen ≡ t.frozen

pub subtract-Remainder :
    (t o : CountsForTimePeriod) (left : Scope → Cell → ℕ)
    → IsTotals t
    → IsPeriod o
    → Covers t o left
    → Remainder (subtract t o) t left
unfolding subtract
subtract-Remainder t o left totals p cover =
    let global =
      subtract-Leaves t.global_counts o.global_counts (left world) world_split p.global
        (IsTotals-IsLive t totals) in
    let nests =
      subtract_nests-NestsLeft o.nest_counts t.nest_counts (λ id. left (nest id)) nests_fit
        p.nests_map p.nests in
    record {
      after = record t { global_counts = global.rest; nest_counts = nests.after };
      result = rw (global.result, nests.result) refl;
      counts = elim [ world ↦ global.tallies | nest id ↦ nests.tallies id ];
      totals = record {
        live = nests.live;
        global = elim (Bool-cases global.emptied) [
          | inl e ↦ inl (global.spent e)
          | inr e ↦ inr (global.live e)
        ];
        nests_map = nests.is_map;
        bound = elim [
          | world ↦ λ x. omega (arith, global.tallies x, cover.sum world x, totals.bound world x)
          | nest id ↦ λ x.
              omega (arith, nests.tallies id x, cover.sum (nest id) x, totals.bound (nest id) x)
        ];
      };
      spent = λ e. global.spent (ground (arith, global.empty, e));
      start_time = refl;
      end_time = refl;
      frozen = refl;
    }
  where
    world_split : IsSplit t.global_counts o.global_counts (left world)
    world_split = record {
      sum = cover.sum world;
      bound = totals.bound world;
      below = cover.below world;
    }

    nests_fit : Fits o.nest_counts t.nest_counts (λ id. left (nest id))
    nests_fit = record {
      sum = λ id. cover.sum (nest id);
      bound = λ id. totals.bound (nest id);
      below = λ id. cover.below (nest id);
      live = totals.live;
      is_map = totals.nests_map;
    }
