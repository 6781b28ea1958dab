-- ===== src/Processor/Config/Checked.antt =====
-- What Validate of processor/config.go makes sure of.
use fletchling.Prelude.{
  ℕ, ◌*◌, ◌≤◌, ◌≡◌, none, ◌⊎◌, inl, inr, Bool-cases, ltb, arith, ℤ, pos, negsuc, ◌≤ℤ◌,
}
use fletchling.Prelude.Float.{Floats}
use fletchling.Prelude.Int.{pos_part}
use fletchling.Prelude.Time.{hour, minute, times}
use fletchling.Prelude.Word.{wrap64_lem}
use fletchling.Processor.Config.{
  Config, validate, min_history_duration, max_history_duration, rotation_interval,
}

-- A configuration that passes has a rotation interval of whole minutes, unless they are too many for a
-- time.Duration, and whole hours of history that fit in a time.Duration.
pub record IsChecked {F : Floats} (cfg : Config F) : Type 0 where
  pub min_hours : ℕ
  pub max_hours : ℕ
  pub min_is : min_history_duration cfg ≡ pos (hour * min_hours)
  pub max_is : max_history_duration cfg ≡ pos (hour * max_hours)
  pub at_least : 1 ≤ min_hours
  pub ordered : min_hours ≤ max_hours
  pub within_half_day : min_hours ≤ 12
  pub within_week : max_hours ≤ 168
  pub rotation : pos 1 ≤ℤ cfg.rotation_interval_minutes
  pub rotation_fits :
      (rotation_interval cfg ≡ pos (minute * pos_part cfg.rotation_interval_minutes))
      ⊎ (pos 153722868 ≤ℤ cfg.rotation_interval_minutes)

small_times : (z : ℤ) → pos 1 ≤ℤ z → z ≤ℤ pos 168 → times hour z ≡ pos (hour * pos_part z)
unfolding times
small_times (pos n) h k = wrap64_lem (pos (hour * n)) (omega arith) (omega arith)
small_times (negsuc n) h k = absurd (omega arith)

-- A time.Duration holds 153,722,867 minutes.
fitting_minutes :
    (z : ℤ) → pos 1 ≤ℤ z → (times minute z ≡ pos (minute * pos_part z)) ⊎ (pos 153722868 ≤ℤ z)
unfolding times
fitting_minutes (pos n) h = elim (Bool-cases (ltb n 153722868)) [
  | inl small ↦ inl (wrap64_lem (pos (minute * n)) (ground (arith, small)) (ground (arith, small)))
  | inr large ↦ inr (ground (arith, large))
]
fitting_minutes (negsuc n) h = absurd (omega arith)

-- A configuration that Validate accepts has at least 1 rotation_interval_minutes, and
-- RotationInterval is that many minutes unless they are 153,722,868 or more; it has a least
-- history of 1 to 12 hours and a longest history of at least that and at most 168 hours, and both
-- are those whole hours as a time.Duration, with no overflow.
pub validate-IsChecked : {F : Floats} (cfg : Config F) → validate cfg ≡ none → IsChecked cfg
unfolding validate min_history_duration max_history_duration rotation_interval
validate-IsChecked cfg h = record {
  min_hours = pos_part cfg.min_history_duration_hours;
  max_hours = pos_part cfg.max_history_duration_hours;
  min_is = small_times cfg.min_history_duration_hours (ground (arith, h)) (ground (arith, h));
  max_is = small_times cfg.max_history_duration_hours (ground (arith, h)) (ground (arith, h));
  at_least = ground (arith, h);
  ordered = ground (arith, h);
  within_half_day = ground (arith, h);
  within_week = ground (arith, h);
  rotation = ground (arith, h);
  rotation_fits = fitting_minutes cfg.rotation_interval_minutes (ground (arith, h));
}
