-- ===== src/Models/Nest.antt =====
-- Nests and the pokemon that nest in them, in processor/models/nest.go. A nil pointer to a nesting
-- pokemon is `none`, and so is the zero time. `Geometry` is the polygon of the geojson package, and
-- `json` its encoding.
use fletchling.Prelude.{
  ℕ, ◌*◌, ℤ, pos, pos_part, int_eq, Bool, Option, none, some, if◌then◌else◌, ◌==◌, String, ltb_ℤ,
}
use fletchling.Prelude.Float.{Floats}
use fletchling.Prelude.Time.{Time, unix, second}
use fletchling.Models.{PokemonKey, key_eq}
use fletchling.Models.Summary.{percent}
use fletchling.DbStore
use fletchling.DbStore.{NestPartialUpdate}

pub record NestingPokemonInfo (F : Floats) : Type 0 where
  pub pokemon_key : PokemonKey
  pub stats_duration_minutes : ℕ
  pub nest_count : ℕ
  pub nest_total : ℕ
  pub nest_hourly_count : F.Float
  pub nest_hourly_total : F.Float
  pub global_count : ℕ
  pub global_total : ℕ
  pub global_hourly_count : F.Float
  pub global_hourly_total : F.Float
  pub detected_at : Option Time
  pub updated_at : Option Time

pub record NestStatsInfo (F : Floats) : Type 0 where
  pub updated_at : Option Time
  pub nesting_pokemon : Option (NestingPokemonInfo F)

pub record Nest (F : Floats) (Geometry : Type 0) : Type 0 where
  pub synced_to_db : Bool
  pub exists_in_db : Bool
  pub id : ℤ
  pub name : String
  pub lat : F.Float
  pub lon : F.Float
  pub geometry : Geometry
  pub area_name : Option String
  pub spawnpoints : Option ℤ
  pub area_m2 : F.Float
  pub active : Bool
  pub discarded : String
  pub stats_info : NestStatsInfo F

module _ (F : Floats) where
  open F use {Float, of_ℕ, mul, div, lt}

  -- `DetectedAt` of a pokemon that was nesting before. The caller's pointer sees the change too.
  abbrev pub keep_detected_at :
      Option (NestingPokemonInfo F) → NestingPokemonInfo F → NestingPokemonInfo F
  keep_detected_at none ni = ni
  keep_detected_at (some old) ni =
      if old.pokemon_key == ni.pokemon_key then record ni { detected_at = old.detected_at } else ni

  abbrev time_or_now : Time → Option Time → Time
  time_or_now now none = now
  time_or_now now (some t) = t

  -- The new state, what nested before, and the update time that the database should have. `now` is
  -- read only if no time is given. The new nesting pokemon is in the state.
  unfoldable pub set_nesting_pokemon :
      Time
      → Option (NestingPokemonInfo F)
      → Option Time
      → NestStatsInfo F
      → NestStatsInfo F × Option (NestingPokemonInfo F) × Option Time
  set_nesting_pokemon now none updated_at si =
      (record si { nesting_pokemon = none }, si.nesting_pokemon, si.updated_at)
  set_nesting_pokemon now (some ni) updated_at si =
      let t = some (time_or_now now updated_at) in
      (
        record { updated_at = t; nesting_pokemon = some (keep_detected_at si.nesting_pokemon ni) },
        si.nesting_pokemon,
        t,
      )

  -- The time before is returned too.
  unfoldable pub set_updated_at : Option Time → NestStatsInfo F → NestStatsInfo F × Option Time
  set_updated_at t si = (record si { updated_at = t }, si.updated_at)

  -- The nesting pokemon that a row of the database tells of, and when it was updated.
  unfoldable pub updated_from_db : Option ℤ → Option Time
  updated_from_db none = none
  updated_from_db (some epoch) =
      if ltb_ℤ (pos 0) epoch then some (pos_part epoch * second) else none

  abbrev int_or_zero : Option ℤ → ℤ
  int_or_zero none = pos 0
  int_or_zero (some z) = z

  abbrev float_or_zero : Option Float → Float
  float_or_zero none = of_ℕ 0
  float_or_zero (some x) = x

  -- The total that gave this percentage, if it is positive.
  total_of : Float → Float → Float
  total_of hourly pct = if lt (of_ℕ 0) pct then div (mul (of_ℕ 100) hourly) pct else of_ℕ 0

  unfoldable pub nesting_pokemon_info_from_db_store :
      Time → DbStore.Nest F → Option (NestingPokemonInfo F) × Option Time
  unfolding total_of updated_from_db
  nesting_pokemon_info_from_db_store now row =
      let updated = updated_from_db row.updated in
      let at = some (time_or_now now updated) in
      let hourly = float_or_zero row.pokemon_avg in
      if ltb_ℤ (pos 0) (int_or_zero row.pokemon_id)
      then (
        some (record {
          pokemon_key = record {
            pokemon_id = int_or_zero row.pokemon_id;
            form_id = int_or_zero row.pokemon_form;
          };
          stats_duration_minutes = 0;
          nest_count = 0;
          nest_total = 0;
          nest_hourly_count = hourly;
          nest_hourly_total = total_of hourly (float_or_zero row.pokemon_ratio);
          global_count = 0;
          global_total = 0;
          global_hourly_count = of_ℕ 0;
          global_hourly_total = of_ℕ 0;
          detected_at = at;
          updated_at = at;
        }),
        updated,
      )
      else (none, updated)

  module _ {Geometry : Type 0} (json : Geometry → String) where
    -- An active nest has no reason to be discarded.
    abbrev discarded_column : Nest F Geometry → Option String
    discarded_column nest = if nest.active then none else some nest.discarded

    abbrev key_columns : Option (NestingPokemonInfo F) → Option ℤ × Option ℤ
    key_columns none = (none, none)
    key_columns (some ni) = (some ni.pokemon_key.pokemon_id, some ni.pokemon_key.form_id)

    -- Count, hourly count and percentage.
    abbrev rate_columns : Option (NestingPokemonInfo F) → Option Float × Option Float × Option Float
    rate_columns none = (none, none, none)
    rate_columns (some ni) = (
      some (of_ℕ ni.nest_count),
      some ni.nest_hourly_count,
      some (percent F ni.nest_count ni.nest_total),
    )

    unfoldable pub as_db_store_nest : Nest F Geometry → DbStore.Nest F
    as_db_store_nest nest =
        let (id, form) = key_columns nest.stats_info.nesting_pokemon in
        let (number, avg, ratio) = rate_columns nest.stats_info.nesting_pokemon in
        record {
          nest_id = nest.id;
          lat = nest.lat;
          lon = nest.lon;
          name = nest.name;
          polygon = json nest.geometry;
          area_name = nest.area_name;
          spawnpoints = nest.spawnpoints;
          m2 = some nest.area_m2;
          active = some nest.active;
          pokemon_id = id;
          pokemon_form = form;
          pokemon_avg = avg;
          pokemon_ratio = ratio;
          pokemon_count = number;
          discarded = discarded_column nest;
          updated = some (unix nest.stats_info.updated_at);
        }

    abbrev updated_column : Option Time → Option ℤ → Option ℤ
    updated_column none of_nest = of_nest
    updated_column (some t) of_nest = some (unix (some t))

    unfoldable pub as_store_partial_update_pokemon :
        Option Time → Nest F Geometry → NestPartialUpdate F
    unfolding as_db_store_nest
    as_store_partial_update_pokemon updated_at nest =
        let row = as_db_store_nest nest in
        record {
          area_name = none;
          spawnpoints = none;
          m2 = none;
          active = none;
          pokemon_id = some row.pokemon_id;
          pokemon_form = some row.pokemon_form;
          pokemon_avg = some row.pokemon_avg;
          pokemon_ratio = some row.pokemon_ratio;
          pokemon_count = some row.pokemon_count;
          discarded = some (discarded_column nest);
          updated = some (updated_column updated_at row.updated);
        }
