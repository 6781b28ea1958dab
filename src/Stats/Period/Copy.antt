-- ===== src/Stats/Period/Copy.antt =====
-- `clone` of a period, in processor/stats.go, copies every count; the copy has an end.
use fletchling.Prelude.{
  ◌≡◌, refl, Option, none, some, [], ◌∷◌, arith, ℤ, int_eq, Option-cases, inl, inr, ap, ◌<◌, ◌∙◌,
  subst,
}
use fletchling.Prelude.Map
use fletchling.Prelude.Int.{eqb_ℤ_iff}
use fletchling.Prelude.Map.{Map, IsMap, IsMap-insert, lookup-nil, lookup-cons, lookup-insert}
use fletchling.Prelude.Time.{Time}
use fletchling.Stats.Counts
use fletchling.Stats.Counts.{CountsByPokemon}
use fletchling.Stats.Counts.Tally.{Cell, all, tally, IsCounts, IsLive}
use fletchling.Stats.Counts.Copy.{tally-clone, tally-clone_spent, clone-IsCounts, IsCounts-IsLive}
use fletchling.Stats.Period.{CountsForTimePeriod, counts_or_new, clone_nests, clone}
use fletchling.Stats.Period.Tally.{Scope, world, nest, count, IsPeriod, IsTotals}

abbrev cloned : Option CountsByPokemon → Option CountsByPokemon → Option CountsByPokemon
cloned none other = other
cloned (some c) other = some (Counts.clone c)

lookup-clone_nests :
    (m acc : Map ℤ CountsByPokemon) (id : ℤ)
    → IsMap m
    → Map.lookup id (clone_nests m acc) ≡ cloned (Map.lookup id m) (Map.lookup id acc)
unfolding clone_nests
lookup-clone_nests [] acc id h = rw lookup-nil refl
lookup-clone_nests ((j, c) ∷ rest) acc id h = ground (
  arith,
  lookup-clone_nests rest (Map.insert j (Counts.clone c) acc) id h.1,
  lookup-insert j id (Counts.clone c) acc,
  lookup-cons j id c rest,
  eqb_ℤ_iff j id,
  h.0,
)

clone_nests-IsMap : (m acc : Map ℤ CountsByPokemon) → IsMap acc → IsMap (clone_nests m acc)
unfolding clone_nests
clone_nests-IsMap [] acc h = h
clone_nests-IsMap ((j, c) ∷ rest) acc h =
    clone_nests-IsMap rest (Map.insert j (Counts.clone c) acc)
      (IsMap-insert j (Counts.clone c) acc h)

-- The copy of one nest, or of none.
clone-nest :
    (end : Time) (p : CountsForTimePeriod) (id : ℤ)
    → IsMap p.nest_counts
    → Map.lookup id (clone end p).nest_counts ≡ cloned (Map.lookup id p.nest_counts) none
unfolding clone
clone-nest end p id h =
    rw (lookup-clone_nests p.nest_counts [] id h)
      (ap (cloned (Map.lookup id p.nest_counts)) (lookup-nil id))

tally-nest :
    (x : Cell) (o : Option CountsByPokemon)
    → ((c : CountsByPokemon) → o ≡ some c → IsLive c)
    → tally x (counts_or_new (cloned o none)) ≡ tally x (counts_or_new o)
tally-nest x none live = refl
tally-nest x (some c) live = tally-clone c (live c refl) x

pub count-clone :
    (end : Time) (p : CountsForTimePeriod)
    → IsPeriod p
    → (s : Scope) (x : Cell) → count s x (clone end p) ≡ count s x p
count-clone end p h world x =
    unfold clone in tally-clone p.global_counts (IsCounts-IsLive _ h.global) x
count-clone end p h (nest id) x =
    ap (λ o. tally x (counts_or_new o)) (clone-nest end p id h.nests_map)
    ∙ tally-nest x (Map.lookup id p.nest_counts) (λ c e. IsCounts-IsLive c (h.nests id c e).0)

pub clone-IsPeriod : (end : Time) (p : CountsForTimePeriod) → IsPeriod p → IsPeriod (clone end p)
clone-IsPeriod end p h = record {
  global = unfold clone in clone-IsCounts p.global_counts h.global;
  nests_map = unfold clone in clone_nests-IsMap p.nest_counts [] tt;
  nests = λ id d e. elim (Option-cases (Map.lookup id p.nest_counts)) [
    | inl missing ↦ absurd (ground (arith, clone-nest end p id h.nests_map, missing, e))
    | inr (c, found) ↦
        let same : Counts.clone c ≡ d = ground (arith, clone-nest end p id h.nests_map, found, e) in
        let own = h.nests id c found in
        subst (λ z. IsCounts z × (0 < z.total)) same
          (
            clone-IsCounts c own.0,
            omega (arith, tally-clone c (IsCounts-IsLive c own.0) all, own.1),
          )
  ];
}

-- Totals keep less, and a copy of theirs counts the same.
pub count-clone_totals :
    (end : Time) (t : CountsForTimePeriod)
    → IsTotals t
    → (s : Scope) (x : Cell) → count s x (clone end t) ≡ count s x t
count-clone_totals end t h world x = elim h.global [
  | inl spent ↦ unfold clone in tally-clone_spent t.global_counts spent x
  | inr live ↦ unfold clone in tally-clone t.global_counts live x
]
count-clone_totals end t h (nest id) x =
    ap (λ o. tally x (counts_or_new o)) (clone-nest end t id h.nests_map)
    ∙ tally-nest x (Map.lookup id t.nest_counts) (h.live id)
