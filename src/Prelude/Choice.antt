-- ===== src/Prelude/Choice.antt =====
-- The first of two options that has a value.
use mathlib.Core.Path.{◌≡◌, refl}
use mathlib.Core.Bool.{Bool, true, false}
use mathlib.Core.Option.{Option, none, some}
use fletchling.Prelude.Tests.{if◌then◌else◌}

module _ {ℓ} {A : Type ℓ} where
  abbrev pub or_else : Option A → Option A → Option A
  or_else none q = q
  or_else (some a) _ = some a

  pub or_else-none : (q : Option A) → or_else q none ≡ q
  or_else-none none = refl
  or_else-none (some _) = refl

  pub or_else-pass :
      (later old : Option A) (hit : Bool) (a : A)
      → or_else later (if hit then some a else old)
        ≡ or_else (or_else later (if hit then some a else none)) old
  or_else-pass none old true a = refl
  or_else-pass none old false a = refl
  or_else-pass (some _) old hit a = refl
