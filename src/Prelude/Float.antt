-- ===== src/Prelude/Float.antt =====
-- float64, of which the program uses conversion, arithmetic and comparison. The format and its
-- rounding are left to whoever gives the record; the theorems hold for every choice.
use fletchling.Prelude.{ℕ, ◌+◌, ◌-◌, ◌*◌, Bool, ltb, leb}
use fletchling.Prelude.{eqb, ℤ, pos_part}

pub record Floats : Type 1 where
  pub Float : Type 0
  pub of_ℕ : ℕ → Float
  pub of_ℤ : ℤ → Float
  pub add : Float → Float → Float
  pub sub : Float → Float → Float
  pub abs : Float → Float
  pub mul : Float → Float → Float
  pub div : Float → Float → Float
  pub le : Float → Float → Bool
  pub lt : Float → Float → Bool
  pub eq : Float → Float → Bool

-- Non-negative fractions, kept as a numerator over a denominator, with 0 in place of a negative
-- number: a choice for the examples.
pub record Ratio : Type 0 where
  pub num : ℕ
  pub den : ℕ

abbrev pub fractions : Floats
fractions = record {
  Float = Ratio;
  of_ℕ = λ n. record { num = n; den = 1 };
  of_ℤ = λ z. record { num = pos_part z; den = 1 };
  add = λ a b. record { num = a.num * b.den + b.num * a.den; den = a.den * b.den };
  sub = λ a b. record { num = a.num * b.den - b.num * a.den; den = a.den * b.den };
  abs = λ a. a;
  mul = λ a b. record { num = a.num * b.num; den = a.den * b.den };
  div = λ a b. record { num = a.num * b.den; den = a.den * b.num };
  le = λ a b. leb (a.num * b.den) (b.num * a.den);
  lt = λ a b. ltb (a.num * b.den) (b.num * a.den);
  eq = λ a b. eqb (a.num * b.den) (b.num * a.den);
}
