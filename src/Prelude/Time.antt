-- ===== src/Prelude/Time.antt =====
-- time.Time and time.Duration: instants are nanoseconds since 1970, durations signed nanoseconds. The zero time.Time is `none` where the program tests for it.
use fletchling.Prelude.{ℕ, ◌-◌, ◌%◌, ◌*◌, ◌/◌, suc, ◌≡◌, refl}
use fletchling.Prelude.{ℤ, pos, negsuc, sub_ℕ, ◌+ℤ◌, ltb_ℤ, Bool, true, Option, none, some}
use fletchling.Prelude.Word.{wrap64}

abbrev pub Time : Type 0
Time = ℕ

abbrev pub Duration : Type 0
Duration = ℤ

abbrev pub second : ℕ
second = 1_000_000_000

abbrev pub minute : ℕ
minute = 60_000_000_000

abbrev pub hour : ℕ
hour = 3_600_000_000_000

-- `t.Sub(u)`
unfoldable pub time_sub : Time → Time → Duration
time_sub t u = sub_ℕ t u

-- `d.Truncate(m)` rounds towards zero.
unfoldable pub truncate : Duration → ℕ → Duration
truncate (pos n) m = pos (n - n % m)
truncate (negsuc n) m = sub_ℕ 0 (suc n - suc n % m)

truncate_test : truncate (pos 150_000_000_000) minute ≡ pos 120_000_000_000
unfolding truncate
truncate_test = refl

-- Integer division rounds towards zero.
unfoldable pub quot : ℤ → ℕ → ℤ
quot (pos n) m = pos (n / m)
quot (negsuc n) m = sub_ℕ 0 (suc n / m)

-- `time.Hour * time.Duration(n)` and the like, on an int64.
unfoldable pub times : ℕ → ℤ → Duration
times unit (pos n) = wrap64 (pos (unit * n))
times unit (negsuc n) = wrap64 (sub_ℕ 0 (unit * suc n))

-- `t.Unix()`, of which the zero time is long ago.
unfoldable pub unix : Option Time → ℤ
unix none = sub_ℕ 0 62_135_596_800
unix (some t) = pos (t / second)

-- `now.After(t.Add(d))`. No duration reaches from the zero time to an instant since 1970.
unfoldable pub after_add : Time → Option Time → Duration → Bool
after_add now none d = true
after_add now (some t) d = ltb_ℤ (pos t +ℤ d) (pos now)
