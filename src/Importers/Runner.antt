-- ===== src/Importers/Runner.antt =====
-- ImportRunner of importer/runner.go: the features of an exporter that an importer is given.
use mathlib.Core.Bool.{◌&&◌}
use Prim.Native.String
use fletchling.Prelude.{
  ℕ, suc, string_eq, Bool, true, false, Option, none, some, List, [], ◌∷◌, String, if◌then◌else◌,
  ◌==◌,
}
use fletchling.Prelude.Float.{Floats}
use fletchling.Prelude.Map.{Map, lookup, insert}
use fletchling.Geo.{
  Value, text, Feature, Parsed, ok, err, NameAndId, name_and_int_id_from_feature,
  geometry_supported, text_of, not_empty,
}

pub record Config (F : Floats) : Type 0 where
  pub default_name : String
  pub default_name_location : Bool
  pub min_area_m2 : F.Float
  pub max_area_m2 : F.Float

-- A feature as the exporter gives it: nil properties and a nil geometry are none.
pub record RawFeature (Geometry : Type 0) : Type 0 where
  pub properties : Option (Map String Value)
  pub geometry : Option Geometry

pub data ImportError : Type 0 where
  export_failed cancelled import_failed : ImportError

-- ` at %0.5f,%0.5f` of the label point, the type and the area of a geometry are parameters.
module _ (F : Floats) {Geometry : Type 0} (cfg : Config F) (location : Geometry → String)
    (type_of : Geometry → String) (area_of : Geometry → F.Float) where
  abbrev pub default_name_for : Geometry → String
  default_name_for g =
      if cfg.default_name_location
      then String.◌++◌ cfg.default_name (location g)
      else cfg.default_name

  -- A feature without a name gets the one that is configured, if there is one.
  unfoldable pub with_name : Map String Value → Geometry → Option (Feature Geometry)
  unfolding lookup insert
  with_name properties g = elim (not_empty (text_of (lookup "name" properties))) [
    | some name ↦ some (record { properties = properties; geometry = g })
    | none ↦
        if cfg.default_name == ""
        then none
        else some (record {
          properties = insert "name" (text (default_name_for g)) properties;
          geometry = g;
        })
  ]

  abbrev pub fits_area : F.Float → Bool
  fits_area area =
      if F.lt area cfg.min_area_m2
      then false
      else if F.lt (F.of_ℕ 0) cfg.max_area_m2 && F.lt cfg.max_area_m2 area
      then false
      else true

  abbrev pub is_named : Parsed NameAndId → Bool
  is_named (ok named) = true
  is_named (err e) = false

  unfoldable pub is_importable : Feature Geometry → Bool
  unfolding name_and_int_id_from_feature geometry_supported
  is_importable feature =
      if is_named (name_and_int_id_from_feature feature)
      then if geometry_supported (type_of feature.geometry)
        then fits_area (area_of feature.geometry)
        else false
      else false

  abbrev pub importable : Option (Feature Geometry) → Option (Feature Geometry)
  unfolding is_importable
  importable none = none
  importable (some feature) = if is_importable feature then some feature else none

  abbrev pub selected : Option (Map String Value) → Option Geometry → Option (Feature Geometry)
  unfolding with_name is_importable
  selected (some properties) (some g) = importable (with_name properties g)
  selected _ _ = none

  abbrev pub and_feature :
      Option (Feature Geometry) → List (Feature Geometry) → List (Feature Geometry)
  and_feature none features = features
  and_feature (some feature) features = feature ∷ features

  -- The features selected; none if the context is over before the n-th one is looked at.
  unfoldable pub select_features :
      (ℕ → Bool) → ℕ → List (RawFeature Geometry) → Option (List (Feature Geometry))
  unfolding with_name is_importable
  select_features over n [] = some []
  select_features over n (raw ∷ more) =
      let rest = select_features over (suc n) more in
      if over n then none else elim rest [
        | none ↦ none
        | some features ↦ some (and_feature (selected raw.properties raw.geometry) features)
      ]

  -- `importer` is the importer's ImportFeatures on the state that it changes.
  unfoldable pub import_all :
      {State : Type 0}
      → (ℕ → Bool)
      → Option (List (RawFeature Geometry))
      → (List (Feature Geometry) → State → State × Option ImportError)
      → State
      → State × Option ImportError
  unfolding select_features
  import_all over none importer state = (state, some export_failed)
  import_all over (some raws) importer state = elim (select_features over 0 raws) [
    | none ↦ (state, some ImportError.cancelled)
    | some features ↦ importer features state
  ]
