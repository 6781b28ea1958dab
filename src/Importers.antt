-- ===== src/Importers.antt =====
-- The importers, in importers/db.go and importer/runner.go. The area of a geometry, the point at which
-- it is labelled, its JSON and the failures of the database are parameters.
pub mod Runner
pub mod Koji
pub mod Settled
pub mod Existing
pub mod Examples
use mathlib.Core.Bool.{◌&&◌}
use fletchling.Prelude.{
  ℕ, ℤ, pos, int_eq, string_eq, Bool, true, false, Option, none, some, List, [], ◌∷◌, String, ◌==◌,
  if◌then◌else◌,
}
use fletchling.Prelude.Float.{Floats}
use fletchling.Prelude.Map.{Map, lookup, insert}
use fletchling.DbStore
use fletchling.Geo.{Feature, Parsed, ok, err, NameAndId, name_and_int_id_from_feature}

abbrev pub text_or_empty : Option String → String
text_or_empty none = ""
text_or_empty (some s) = s

abbrev pub true_or_false : Option Bool → Bool
true_or_false none = false
true_or_false (some b) = b

abbrev pub int_or_0 : Option ℤ → ℤ
int_or_0 none = pos 0
int_or_0 (some z) = z

-- What fails while one feature is imported.
pub record Failures : Type 0 where
  pub reading : Bool
  pub encoding : Bool
  pub writing : Bool

module _ (F : Floats) where
  -- The `nests` table: the rows by their ids.
  abbrev pub Table : Type 0
  Table = Map ℤ (DbStore.Nest F)

  -- The statement of InsertOrUpdateNest on the row that has the id, if there is one: the pokemon's
  -- columns of that row stay.
  unfoldable pub insert_or_update_nest : DbStore.Nest F → Option (DbStore.Nest F) → DbStore.Nest F
  insert_or_update_nest nest none = nest
  insert_or_update_nest nest (some old) = record old {
    name = nest.name;
    lat = nest.lat;
    lon = nest.lon;
    polygon = nest.polygon;
    area_name = nest.area_name;
    spawnpoints = nest.spawnpoints;
    m2 = nest.m2;
    active = nest.active;
    discarded = nest.discarded;
    updated = nest.updated;
  }

  -- The pokemon of a row that is active.
  abbrev pub with_pokemon : DbStore.Nest F → DbStore.Nest F → DbStore.Nest F
  with_pokemon old nest =
      if true_or_false old.active
      then record nest {
        pokemon_id = old.pokemon_id;
        pokemon_form = old.pokemon_form;
        pokemon_avg = old.pokemon_avg;
        pokemon_ratio = old.pokemon_ratio;
        pokemon_count = old.pokemon_count;
      }
      else nest

  -- What is taken over from the row before; a new name of the area is preferred.
  unfoldable pub with_existing : Option (DbStore.Nest F) → DbStore.Nest F → DbStore.Nest F
  with_existing none nest = nest
  with_existing (some old) nest = with_pokemon old (record nest {
    active = old.active;
    updated = old.updated;
    discarded = old.discarded;
    name = old.name;
    spawnpoints = old.spawnpoints;
    area_name = if text_or_empty nest.area_name == "" then old.area_name else nest.area_name;
  })

  abbrev pub or_unverified : Option String → Option String
  or_unverified none = some "unverified"
  or_unverified (some reason) = some reason

  unfoldable pub with_state : DbStore.Nest F → DbStore.Nest F
  with_state nest =
      if true_or_false nest.active
      then record nest { discarded = none }
      else record nest { active = some false; discarded = or_unverified nest.discarded }

  unfoldable pub with_time : ℤ → DbStore.Nest F → DbStore.Nest F
  with_time now nest =
      if int_or_0 nest.updated == pos 0 then record nest { updated = some now } else nest

  module _ {Geometry : Type 0} (area_of : Geometry → F.Float)
      (label_point : Geometry → F.Float × F.Float) (json : Geometry → String) where
    -- The row of the feature alone; latitude and longitude of the label.
    unfoldable pub feature_row : NameAndId → Geometry → DbStore.Nest F
    feature_row named g = record {
      nest_id = named.nest_id;
      lat = (label_point g).0;
      lon = (label_point g).1;
      name = named.name;
      polygon = json g;
      area_name = named.area_name;
      spawnpoints = none;
      m2 = some (area_of g);
      active = none;
      pokemon_id = none;
      pokemon_form = none;
      pokemon_avg = none;
      pokemon_ratio = none;
      pokemon_count = none;
      discarded = none;
      updated = none;
    }

    unfoldable pub imported_row :
        ℤ → NameAndId → Geometry → Option (DbStore.Nest F) → DbStore.Nest F
    unfolding feature_row with_existing with_state with_time
    imported_row now named g old =
        with_time now (with_state (with_existing old (feature_row named g)))

    -- The error of reading the row is dropped, and the nest is taken for a new one.
    unfoldable pub import_named : ℤ → NameAndId → Geometry → Failures → Table → Table
    unfolding imported_row insert_or_update_nest lookup insert
    import_named now named g fails table =
        let old = lookup named.nest_id table in
        let existing = if fails.reading then none else old in
        if fails.encoding
        then table
        else if fails.writing
        then table
        else insert named.nest_id (insert_or_update_nest (imported_row now named g existing) old)
            table

    unfoldable pub import_parsed : ℤ → Geometry → Failures → Table → Parsed NameAndId → Table
    import_parsed now g fails table (err e) = table
    import_parsed now g fails table (ok named) = import_named now named g fails table

    unfoldable pub import_feature : ℤ → Feature Geometry → Failures → Table → Table
    unfolding import_parsed import_named name_and_int_id_from_feature
    import_feature now feature fails table =
        import_parsed now feature.geometry fails table (name_and_int_id_from_feature feature)

    unfoldable pub import_features : ℤ → List (Feature Geometry × Failures) → Table → Table
    unfolding import_feature
    import_features now [] table = table
    import_features now ((feature, fails) ∷ more) table =
        import_features now more (import_feature now feature fails table)
