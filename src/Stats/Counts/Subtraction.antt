-- ===== src/Stats/Counts/Subtraction.antt =====
-- `subtract` of processor/stats.go removes exactly the other counts from every cell.
use fletchling.Prelude.{
  ℕ, ◌+◌, ◌≤◌, ◌<◌, ◌≡◌, refl, Bool, true, false, none, some, [], ◌∷◌, arith, eqb, if◌then◌else◌,
  Bool-cases, inl, inr, Outcome, done, ◌==◌, sym,
}
use fletchling.Prelude.Word.{sub64, sub64_lem, u64_mod}
use fletchling.Prelude.Map
use fletchling.Prelude.Map.{
  Map, IsMap, IsMap-insert, IsMap-delete, IsMap-insert, lookup-nil, lookup-cons, lookup-insert,
  lookup-delete,
}
use fletchling.Models.{PokemonKey, key_eq, eqb_key, eqb_key_iff}
use fletchling.Stats.Counts.{
  CountsByPokemon, value_or_zero, subtract_entry, subtract_entries, subtract,
}
use fletchling.Stats.Counts.Tally.{Cell, all, one, tally, IsCounts, IsLive, IsSpent}

abbrev value : PokemonKey → Map PokemonKey ℕ → ℕ
value k m = value_or_zero (Map.lookup k m)

value-subtract_entry :
    (j k : PokemonKey) (v : ℕ) (m : Map PokemonKey ℕ)
    → value k (subtract_entry j v m) ≡ (if j == k then sub64 (value j m) v else value k m)
unfolding subtract_entry
value-subtract_entry j k v m =
    ground (arith, lookup-insert j k (sub64 (value j m) v) m, lookup-delete j k m)

-- After one round the rest still fits, and nothing has grown.
module _ (j : PokemonKey) (v : ℕ) (rest m : Map PokemonKey ℕ) (fresh : Map.lookup j rest ≡ none)
    (le : (k : PokemonKey) → value k ((j, v) ∷ rest) ≤ value k m)
    (lt : (k : PokemonKey) → value k m < u64_mod) where
  entry-le : v ≤ value j m
  entry-le = ground (arith, le j, lookup-cons j j v rest, eqb_key_iff j j)

  value_step :
      (k : PokemonKey) → value k (subtract_entry j v m) + (if eqb_key j k then v else 0) ≡ value k m
  value_step k = ground (
    arith,
    value-subtract_entry j k v m,
    eqb_key_iff j k,
    sub64_lem (value j m) v (lt j) entry-le,
    entry-le,
  )

  rest-le : (k : PokemonKey) → value k rest ≤ value k (subtract_entry j v m)
  rest-le k = ground (arith, value_step k, lookup-cons j k v rest, eqb_key_iff j k, fresh, le k)

  step-lt : (k : PokemonKey) → value k (subtract_entry j v m) < u64_mod
  step-lt k = omega (arith, value_step k, lt k)

value-subtract_entries :
    (others m : Map PokemonKey ℕ)
    → IsMap others
    → ((k : PokemonKey) → value k others ≤ value k m)
    → ((k : PokemonKey) → value k m < u64_mod)
    → (k : PokemonKey) → value k (subtract_entries others m) + value k others ≡ value k m
unfolding subtract_entries
value-subtract_entries [] m h le lt k = rw lookup-nil (omega arith)
value-subtract_entries ((j, v) ∷ rest) m h le lt k = ground (
  arith,
  value_step j v rest m h.0 le lt k,
  lookup-cons j k v rest,
  eqb_key_iff j k,
  h.0,
  value-subtract_entries rest (subtract_entry j v m) h.1 (rest-le j v rest m h.0 le lt)
      (step-lt j v rest m h.0 le lt) k,
)

subtract_entry-IsMap :
    (j : PokemonKey) (v : ℕ) (m : Map PokemonKey ℕ) → IsMap m → IsMap (subtract_entry j v m)
unfolding subtract_entry
subtract_entry-IsMap j v m h = elim (Bool-cases (eqb (sub64 (value j m) v) 0)) [
  | inl gone ↦ rw gone (IsMap-delete j m h)
  | inr kept ↦ rw kept (IsMap-insert j (sub64 (value j m) v) m h)
]

subtract_entries-IsMap : (others m : Map PokemonKey ℕ) → IsMap m → IsMap (subtract_entries others m)
unfolding subtract_entries
subtract_entries-IsMap [] m h = h
subtract_entries-IsMap ((j, v) ∷ rest) m h =
    subtract_entries-IsMap rest (subtract_entry j v m) (subtract_entry-IsMap j v m h)

-- `t` splits into `other` and what is left of it.
pub record IsSplit (t other : CountsByPokemon) (left : Cell → ℕ) : Type 0 where
  pub sum : (x : Cell) → tally x t ≡ tally x other + left x
  pub bound : (x : Cell) → tally x t < u64_mod
  pub below : (k : PokemonKey) → left (one k) ≤ left all

-- A subtraction that did not panic left exactly `left`, and reports whether that is nothing.
pub record Leaves (r : Outcome (CountsByPokemon × Bool)) (left : Cell → ℕ) : Type 0 where
  pub rest : CountsByPokemon
  pub emptied : Bool
  pub result : r ≡ done (rest, emptied)
  pub tallies : (x : Cell) → tally x rest ≡ left x
  pub empty : emptied ≡ eqb (left all) 0
  pub live : emptied ≡ false → IsLive rest
  pub spent : emptied ≡ true → IsSpent rest

module _ (t other : CountsByPokemon) (left : Cell → ℕ) (s : IsSplit t other left)
    (h : IsCounts other) where
  total-eq : sub64 t.total other.total ≡ left all
  total-eq = omega (arith, sub64_lem t.total other.total (s.bound all), s.sum all)

  subtract-Leaves_nothing : left all ≡ 0 → Leaves (subtract t other) left
  unfolding subtract
  subtract-Leaves_nothing gone = record {
    rest = record { total = 0; by_pokemon = none };
    emptied = true;
    result = rw (total-eq, gone) refl;
    tallies = elim [ all ↦ sym gone | one k ↦ rw lookup-nil (omega (arith, s.below k)) ];
    empty = rw gone refl;
    live = λ e. cc;
    spent = λ _. (refl, refl);
  }

  module _ (m : Map PokemonKey ℕ) (is : t.by_pokemon ≡ some m) (is_map : IsMap m) where
    value_split : (k : PokemonKey) → value k m ≡ value k h.pairs + left (one k)
    value_split k = ground (arith, s.sum (one k), is, h.are)

    value_bound : (k : PokemonKey) → value k m < u64_mod
    value_bound k = ground (arith, s.bound (one k), is)

    value-eq : (k : PokemonKey) → value k (subtract_entries h.pairs m) ≡ left (one k)
    value-eq k = omega (
      arith,
      value_split k,
      value-subtract_entries h.pairs m h.is_map (λ j. omega (arith, value_split j)) value_bound k,
    )

    subtract-Leaves_something : eqb (left all) 0 ≡ false → Leaves (subtract t other) left
    unfolding subtract
    subtract-Leaves_something more = record {
      rest = record { total = left all; by_pokemon = some (subtract_entries h.pairs m) };
      emptied = false;
      result = rw (total-eq, more, is, h.are) refl;
      tallies = elim [ all ↦ refl | one k ↦ value-eq k ];
      empty = sym more;
      live = λ _. (_, refl, subtract_entries-IsMap h.pairs m is_map);
      spent = λ e. cc;
    }

  pub subtract-Leaves : (0 < t.total → IsLive t) → Leaves (subtract t other) left
  subtract-Leaves live = elim (Bool-cases (eqb (left all) 0)) [
    | inl gone ↦ subtract-Leaves_nothing (ground arith)
    | inr more ↦
        let (m, is, is_map) = live (ground (arith, s.sum all)) in
        subtract-Leaves_something m is is_map more
  ]
