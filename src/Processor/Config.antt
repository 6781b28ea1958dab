-- ===== src/Processor/Config.antt =====
-- The configuration of the processor, in processor/config.go. A Go int has 64 bits.
pub mod Checked
use mathlib.Core.Bool.{◌&&◌, ◌||◌}
use fletchling.Prelude.{ℕ, ℤ, pos, Bool, true, false, Option, none, some, if◌then◌else◌, ltb_ℤ}
use fletchling.Prelude.Float.{Floats}
use fletchling.Prelude.Time.{Duration, hour, minute, times}

pub record Config (F : Floats) : Type 0 where
  pub log_last_stats_period : Bool
  pub rotation_interval_minutes : ℤ
  pub min_history_duration_hours : ℤ
  pub max_history_duration_hours : ℤ
  pub min_nest_pokemon : ℤ
  pub min_nest_pokemon_pct : F.Float
  pub min_total_pokemon : ℤ
  pub max_global_spawn_pct : F.Float
  pub min_nest_pct_to_global_pct_ratio : F.Float
  pub skip_period_min_global_spawn_pct : F.Float
  pub no_nesting_pokemon_age_hours : ℤ

pub data ConfigError : Type 0 where
  rotation_interval_minutes min_history_duration_hours max_history_duration_hours min_above_max
        max_global_spawn_pct skip_period_min_global_spawn_pct :
      ConfigError

abbrev out_of_range : ℤ → ℤ → ℤ → Bool
out_of_range least most val = ltb_ℤ val least || ltb_ℤ most val

abbrev too_low : (F : Floats) → ℕ → F.Float → Bool
too_low F least pct = F.lt (F.of_ℕ 0) pct && F.lt pct (F.of_ℕ least)

module _ {F : Floats} where
  unfoldable pub min_history_duration : Config F → Duration
  min_history_duration cfg = times hour cfg.min_history_duration_hours

  unfoldable pub max_history_duration : Config F → Duration
  max_history_duration cfg = times hour cfg.max_history_duration_hours

  unfoldable pub rotation_interval : Config F → Duration
  rotation_interval cfg = times minute cfg.rotation_interval_minutes

  unfoldable pub no_nesting_pokemon_age : Config F → Duration
  no_nesting_pokemon_age cfg = times hour cfg.no_nesting_pokemon_age_hours

  -- `none` if there is nothing wrong.
  unfoldable pub validate : Config F → Option ConfigError
  validate cfg =
      if ltb_ℤ cfg.rotation_interval_minutes (pos 1)
      then some ConfigError.rotation_interval_minutes
      else if out_of_range (pos 1) (pos 12) cfg.min_history_duration_hours
      then some ConfigError.min_history_duration_hours
      else if out_of_range (pos 1) (pos 168) cfg.max_history_duration_hours
      then some ConfigError.max_history_duration_hours
      else if ltb_ℤ cfg.max_history_duration_hours cfg.min_history_duration_hours
      then some min_above_max
      else if too_low F 1 cfg.max_global_spawn_pct
      then some ConfigError.max_global_spawn_pct
      else if too_low F 3 cfg.skip_period_min_global_spawn_pct
      then some ConfigError.skip_period_min_global_spawn_pct
      else none

abbrev pub get_default_config : (F : Floats) → Config F
get_default_config F = record {
  log_last_stats_period = false;
  rotation_interval_minutes = pos 15;
  min_history_duration_hours = pos 1;
  max_history_duration_hours = pos 12;
  min_nest_pokemon = pos 4;
  min_nest_pokemon_pct = F.of_ℕ 12;
  min_total_pokemon = pos 12;
  max_global_spawn_pct = F.of_ℕ 15;
  min_nest_pct_to_global_pct_ratio = F.of_ℕ 8;
  skip_period_min_global_spawn_pct = F.of_ℕ 40;
  no_nesting_pokemon_age_hours = pos 12;
}
