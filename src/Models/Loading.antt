-- ===== src/Models/Loading.antt =====
-- New nests: from a row of the database and from a feature of Koji, in processor/models/nest.go. Parsing
-- a polygon, the area of a geometry and its label point are parameters.
use fletchling.Prelude.{ℤ, int_eq, string_eq, Bool, true, false, Option, none, some, String}
use fletchling.Prelude.Float.{Floats}
use fletchling.Prelude.Time.{Time}
use fletchling.Prelude.Map.{lookup}
use fletchling.Prelude.Word.{i64_of_ℕ}
use fletchling.DbStore
use fletchling.Geo.{
  Value, text, int64, uint64, Feature, no_name, no_id, bad_number, bad_type, Parsed, ok, err,
  parse_int, text_of, not_empty,
}
use fletchling.Models.Nest.{
  Nest, NestStatsInfo, nesting_pokemon_info_from_db_store, set_nesting_pokemon,
}

abbrev pub empty_if_null : Option String → String
empty_if_null none = ""
empty_if_null (some s) = s

abbrev pub false_if_null : Option Bool → Bool
false_if_null none = false
false_if_null (some b) = b

abbrev number_or_err : Option ℤ → Parsed ℤ
number_or_err none = err bad_number
number_or_err (some z) = ok z

-- Fewer types than geo takes: an int or a uint is refused.
unfoldable pub koji_id : Option Value → Parsed ℤ
unfolding parse_int
koji_id none = err no_id
koji_id (some (text s)) = number_or_err (parse_int s)
koji_id (some (int64 z)) = ok z
koji_id (some (uint64 n)) = ok (i64_of_ℕ n)
koji_id (some _) = err bad_type

module _ (F : Floats) where
  abbrev pub zero_if_null : Option F.Float → F.Float
  zero_if_null none = F.of_ℕ 0
  zero_if_null (some x) = x

  abbrev pub empty_info : NestStatsInfo F
  empty_info = record { updated_at = none; nesting_pokemon = none }

  -- What the row tells of the pokemon that nests.
  unfoldable pub info_from_db_store : Time → DbStore.Nest F → NestStatsInfo F
  unfolding nesting_pokemon_info_from_db_store set_nesting_pokemon
  info_from_db_store now row =
      let (ni, updated_at) = nesting_pokemon_info_from_db_store F now row in
      (set_nesting_pokemon F now ni updated_at empty_info).0

module _ (F : Floats) {Geometry : Type 0} where
  abbrev pub nest_with_geometry : Time → DbStore.Nest F → Option Geometry → Option (Nest F Geometry)
  nest_with_geometry now row none = none
  nest_with_geometry now row (some g) = some (record {
    synced_to_db = true;
    exists_in_db = true;
    id = row.nest_id;
    name = row.name;
    lat = row.lat;
    lon = row.lon;
    geometry = g;
    area_name = row.area_name;
    spawnpoints = row.spawnpoints;
    area_m2 = zero_if_null F row.m2;
    active = false_if_null row.active;
    discarded = empty_if_null row.discarded;
    stats_info = info_from_db_store F now row;
  })

  unfoldable pub new_nest_from_db_store :
      (String → Option Geometry) → Time → DbStore.Nest F → Option (Nest F Geometry)
  unfolding info_from_db_store
  new_nest_from_db_store geometry_of now row = nest_with_geometry now row (geometry_of row.polygon)

  module _ (area_of : Geometry → F.Float) (label_point : Geometry → F.Float × F.Float)
      (now : Time) where
    -- A nest of Koji is active, and its state is of now.
    abbrev pub koji_nest : String → Option String → Geometry → Parsed ℤ → Parsed (Nest F Geometry)
    koji_nest name area_name g (err e) = err e
    koji_nest name area_name g (ok id) = ok (record {
      synced_to_db = false;
      exists_in_db = false;
      id = id;
      name = name;
      lat = (label_point g).0;
      lon = (label_point g).1;
      geometry = g;
      area_name = area_name;
      spawnpoints = none;
      area_m2 = area_of g;
      active = true;
      discarded = "";
      stats_info = record { updated_at = some now; nesting_pokemon = none };
    })

    unfoldable pub new_nest_from_koji_feature : Feature Geometry → Parsed (Nest F Geometry)
    unfolding lookup koji_id
    new_nest_from_koji_feature feature = elim (text_of (lookup "name" feature.properties)) [
      | none ↦ err no_name
      | some name ↦
          koji_nest name (not_empty (text_of (lookup "parent" feature.properties))) feature.geometry
            (koji_id (lookup "id" feature.properties))
    ]
