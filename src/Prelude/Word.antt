-- ===== src/Prelude/Word.antt =====
-- Integers of 64 bits: uint64 counters, and the conversions to and from int64.
use Prim.Native.Nat.{ℕ, ◌+◌, ◌-◌, ◌%◌, ◌^◌, ◌≤◌, ◌<◌}
use mathlib.Core.Path.{◌≡◌}
use native.Mathlib.Omega.{arith}
use fletchling.Prelude.Tests.{ltb, if◌then◌else◌}
use fletchling.Prelude.Int.{ℤ, pos, negsuc, pos_part, neg_part, sub_ℕ}

abbrev pub u64_mod : ℕ
u64_mod = 2 ^ 64

-- `x++` and `x - y` on a uint64.
unfoldable pub inc64 : ℕ → ℕ
inc64 a = (a + 1) % u64_mod

unfoldable pub sub64 : ℕ → ℕ → ℕ
sub64 a b = (a + u64_mod - b) % u64_mod

pub inc64_lem : (a : ℕ) → a + 1 < u64_mod → inc64 a ≡ a + 1
unfolding inc64
inc64_lem a h = omega arith

pub sub64_lem : (a b : ℕ) → a < u64_mod → b ≤ a → sub64 a b ≡ a - b
unfolding sub64
sub64_lem a b h k = omega arith

-- `uint64(z)` and `int64(n)`, which is also what arithmetic on an int64 gives.
unfoldable pub u64_of_ℤ : ℤ → ℕ
u64_of_ℤ (pos n) = n % u64_mod
u64_of_ℤ (negsuc n) = u64_mod - 1 - n % u64_mod

unfoldable pub i64_of_ℕ : ℕ → ℤ
i64_of_ℕ n = if ltb n (2 ^ 63) then pos n else sub_ℕ n u64_mod

unfoldable pub wrap64 : ℤ → ℤ
unfolding u64_of_ℤ i64_of_ℕ
wrap64 z = i64_of_ℕ (u64_of_ℤ z)

pub wrap64_lem : (z : ℤ) → pos_part z < 2 ^ 63 → neg_part z < 2 ^ 63 → wrap64 z ≡ z
unfolding wrap64
wrap64_lem (pos n) h k = ground arith
wrap64_lem (negsuc n) h k = ground arith
