-- ===== src/Stats/Collection/Balance.antt =====
-- The running totals of processor/stats.go against the periods: what the totals must count, and that
-- dropping a period keeps it so.
use fletchling.Prelude.{
  ℕ, suc, ◌+◌, ◌≤◌, ◌≡◌, refl, some, List, [], ◌∷◌, ◌++◌, arith, pos, ◌+ℤ◌, ◌-ℤ◌, int_laws, Outcome,
  done, All, Option-cases, inl, inr, int_eq,
}
use fletchling.Prelude.Map
use fletchling.Prelude.Map.{lookup-nil}
use fletchling.Prelude.Time.{Time, Duration}
use fletchling.Models.{PokemonKey}
use fletchling.Stats.Counts.Tally.{Cell, all, one, IsSpent}
use fletchling.Stats.Period.{CountsForTimePeriod, duration}
use fletchling.Stats.Period.Tally.{Scope, world, nest, count, IsPeriod, IsTotals}
use fletchling.Stats.Period.Subtraction.{subtract-Remainder}
use fletchling.Stats.Collection.{Purge, drop_period}

-- What all the periods together count.
abbrev pub sum_counts : Scope → Cell → List CountsForTimePeriod → ℕ
sum_counts s x [] = 0
sum_counts s x (p ∷ ps) = count s x p + sum_counts s x ps

pub sum_counts-append :
    (s : Scope) (x : Cell) (ps qs : List CountsForTimePeriod)
    → sum_counts s x (ps ++ qs) ≡ sum_counts s x ps + sum_counts s x qs
sum_counts-append s x [] qs = omega arith
sum_counts-append s x (p ∷ ps) qs = omega (arith, sum_counts-append s x ps qs)

-- The totals count what the periods count.
pub record IsBalanced (t : CountsForTimePeriod) (ps : List CountsForTimePeriod) : Type 0 where
  pub totals : IsTotals t
  pub sums : (s : Scope) (x : Cell) → count s x t ≡ sum_counts s x ps

-- A period that is over has a length of its own.
abbrev pub IsEnded : CountsForTimePeriod → Type 0
IsEnded p = (t : Time) × (p.end_time ≡ some t)

abbrev pub length_of : CountsForTimePeriod → Duration
length_of = duration 0

abbrev pub sum_lengths : List CountsForTimePeriod → Duration
sum_lengths [] = pos 0
sum_lengths (p ∷ ps) = length_of p +ℤ sum_lengths ps

pub duration-IsEnded :
    (now : Time) (p : CountsForTimePeriod) → IsEnded p → duration now p ≡ length_of p
unfolding duration
duration-IsEnded now p (t, e) = rw e refl

pub sum_lengths-append :
    (ps qs : List CountsForTimePeriod) → sum_lengths (ps ++ qs) ≡ sum_lengths ps +ℤ sum_lengths qs
sum_lengths-append [] qs = omega int_laws
sum_lengths-append (p ∷ ps) qs = rw (sum_lengths-append ps qs) (omega int_laws)

count-below :
    (s : Scope) (k : PokemonKey) (p : CountsForTimePeriod)
    → IsPeriod p
    → count s (one k) p ≤ count s all p
count-below world k p h = h.global.below k
count-below (nest id) k p h = elim (Option-cases (Map.lookup id p.nest_counts)) [
  | inl e ↦ rw e (rw lookup-nil (omega arith))
  | inr (c, e) ↦ rw e ((h.nests id c e).0.below k)
]

pub sum_counts-below :
    (s : Scope) (k : PokemonKey) (ps : List CountsForTimePeriod)
    → All IsPeriod ps
    → sum_counts s (one k) ps ≤ sum_counts s all ps
sum_counts-below s k [] h = omega arith
sum_counts-below s k (p ∷ ps) h = omega (arith, count-below s k p h.0, sum_counts-below s k ps h.1)

-- One round of a purge, with the periods `rest` left.
pub record Dropped (r : Outcome Purge) (now : Time) (del : CountsForTimePeriod) (s : Purge)
    (rest : List CountsForTimePeriod) : Type 0 where
  pub after : Purge
  pub result : r ≡ done after
  pub balanced : IsBalanced after.totals rest
  pub num : after.num ≡ suc s.num
  pub purged : after.purged ≡ s.purged +ℤ duration now del
  pub length : after.total_duration ≡ s.total_duration -ℤ duration now del
  pub frozen : after.totals.frozen ≡ s.totals.frozen
  pub spent : sum_counts world all rest ≡ 0 → IsSpent after.totals.global_counts

pub drop_period-Dropped :
    (now : Time) (del : CountsForTimePeriod) (s : Purge) (rest : List CountsForTimePeriod)
    → IsTotals s.totals
    → ((x : Scope) (c : Cell) → count x c s.totals ≡ count x c del + sum_counts x c rest)
    → IsPeriod del
    → All IsPeriod rest
    → Dropped (drop_period now del s) now del s rest
unfolding drop_period
drop_period-Dropped now del s rest totals sums p ps =
    let r =
      subtract-Remainder s.totals del (λ x c. sum_counts x c rest) totals p
        (record { sum = sums; below = λ x k. sum_counts-below x k rest ps }) in
    record {
      after = record {
        num = suc s.num;
        purged = s.purged +ℤ duration now del;
        total_duration = s.total_duration -ℤ duration now del;
        totals = r.after;
      };
      result = rw r.result refl;
      balanced = record { totals = r.totals; sums = r.counts };
      num = refl;
      purged = refl;
      length = refl;
      frozen = r.frozen;
      spent = r.spent;
    }
