-- ===== src/Filters/Config.antt =====
-- The configuration of the filters, filters/config.go.
use fletchling.Prelude.{ℤ, pos, Option, none, some, if◌then◌else◌, ltb_ℤ}
use fletchling.Prelude.Float.{Floats}

pub record FiltersConfig (F : Floats) : Type 0 where
  pub concurrency : ℤ
  pub min_spawnpoints : ℤ
  pub max_spawnpoint_age_days : ℤ
  pub min_area_m2 : F.Float
  pub max_area_m2 : F.Float
  pub max_overlap_percent : F.Float

pub data FiltersError : Type 0 where
  concurrency min_spawnpoints max_spawnpoint_age_days min_area_m2 max_area_m2 max_overlap_percent :
      FiltersError

module _ (F : Floats) where
  -- The least number of spawnpoints is tested against 0 and then, to no other effect, against 1.
  unfoldable pub validate : FiltersConfig F → Option FiltersError
  validate cfg =
      if ltb_ℤ cfg.concurrency (pos 1)
      then some FiltersError.concurrency
      else if ltb_ℤ cfg.min_spawnpoints (pos 0)
      then some FiltersError.min_spawnpoints
      else if ltb_ℤ cfg.max_spawnpoint_age_days (pos 1)
      then some FiltersError.max_spawnpoint_age_days
      else if ltb_ℤ cfg.min_spawnpoints (pos 1)
      then some FiltersError.min_spawnpoints
      else if F.lt cfg.min_area_m2 (F.of_ℕ 0)
      then some FiltersError.min_area_m2
      else if F.lt cfg.max_area_m2 (F.of_ℕ 0)
      then some FiltersError.max_area_m2
      else if F.lt cfg.max_overlap_percent (F.of_ℕ 0)
      then some FiltersError.max_overlap_percent
      else none

  abbrev pub default_filters_config : FiltersConfig F
  default_filters_config = record {
    concurrency = pos 4;
    min_spawnpoints = pos 10;
    max_spawnpoint_age_days = pos 7;
    min_area_m2 = F.of_ℕ 100;
    max_area_m2 = F.of_ℕ 10_000_000;
    max_overlap_percent = F.of_ℕ 60;
  }
