-- ===== src/Filters/Examples.antt =====
-- The theorems about the refresher and about updates of rows, applied to a nest with too few
-- spawnpoints.
use fletchling.Prelude.{
  ℕ, ℤ, ◌≡◌, refl, pos, Bool, true, false, Option, none, some, List, String, done,
}
use fletchling.Prelude.Float.{fractions, Ratio}
use fletchling.Prelude.Time.{hour, unix}
use fletchling.Prelude.Int.{eqb_ℤ}
use fletchling.DbStore.{Nest, NestPartialUpdate, Assignment, update_nest_partial}
use fletchling.DbStore.Updating.{row_after, updated_row, update_nest_partial-eq}
use fletchling.Filters.{
  RefreshNestConfig, refresh_nest, measure, query_spawnpoints, discarded_reason, changes,
  send_changes,
}
use fletchling.Filters.Config.{default_filters_config}
use fletchling.Filters.Agreement.{stored, refresh_nest-stored}
use fletchling.Filters.Settled.{IsSettled, reason, refresh_nest-IsSettled}

abbrev whole : ℕ → Ratio
whole n = record { num = n; den = 1 }

abbrev park : Nest fractions
park = record {
  nest_id = pos 7;
  lat = whole 1;
  lon = whole 2;
  name = "park";
  polygon = "polygon";
  area_name = none;
  spawnpoints = some (pos 3);
  m2 = some (whole 5_000);
  active = some true;
  pokemon_id = some (pos 25);
  pokemon_form = some (pos 0);
  pokemon_avg = some (whole 10);
  pokemon_ratio = some (whole 50);
  pokemon_count = some (whole 10);
  discarded = none;
  updated = some (pos 0);
}

abbrev parse : String → Option String
parse polygon = some polygon

abbrev supported : String → Bool
supported geometry = true

abbrev area : String → Ratio
area geometry = whole 5_000

abbrev golbat : Option (String → ℤ → Option ℤ)
golbat = none

abbrev cfg : RefreshNestConfig fractions
cfg = record {
  filters = default_filters_config fractions;
  concurrency = pos 4;
  force_spawnpoints_refresh = false;
}

abbrev taken : NestPartialUpdate fractions → Bool
taken update = true

abbrev discarded_now : NestPartialUpdate fractions
discarded_now = record {
  area_name = none;
  spawnpoints = none;
  m2 = none;
  active = some false;
  pokemon_id = some none;
  pokemon_form = some none;
  pokemon_avg = some none;
  pokemon_ratio = none;
  pokemon_count = some none;
  discarded = some (some "spawnpoints");
  updated = some (some (pos 3_600));
}

update_nest_partial-eq_example :
    (args : Option (List (Assignment fractions))) × (update_nest_partial discarded_now ≡ done args)
    × ((row : Nest fractions) → row_after (done args) row ≡ updated_row discarded_now row)
update_nest_partial-eq_example = update_nest_partial-eq discarded_now

refresh_nest-stored_example :
    (refresh_nest fractions parse supported area golbat cfg hour taken park).nest
    ≡ stored taken
        (refresh_nest fractions parse supported area golbat cfg hour taken park).sent
        park
refresh_nest-stored_example =
    refresh_nest-stored fractions parse supported area golbat cfg hour taken park

park_sent :
    (refresh_nest fractions parse supported area golbat cfg hour taken park).sent
    ≡ some discarded_now
unfolding refresh_nest measure query_spawnpoints discarded_reason changes send_changes eqb_ℤ unix
park_sent = refl

park_taken : (refresh_nest fractions parse supported area golbat cfg hour taken park).failed ≡ false
unfolding refresh_nest measure query_spawnpoints discarded_reason changes send_changes
park_taken = refl

refresh_nest-IsSettled_example :
    IsSettled
      (reason fractions parse supported area golbat cfg hour taken park)
      (refresh_nest fractions parse supported area golbat cfg hour taken park).nest
refresh_nest-IsSettled_example =
    refresh_nest-IsSettled fractions parse supported area golbat cfg hour taken park park_taken
