-- ===== src/Geo/Features.antt =====
-- What DBExporter of exporters/db.go makes of a row, and that geo/util.go reads it back.
use fletchling.Prelude.{
  ◌≡◌, refl, ℤ, string_eq, Option, none, some, List, [], ◌∷◌, String, if◌then◌else◌, ◌==◌,
  Bool-cases, inl, inr,
}
use fletchling.Prelude.Float.{Floats}
use fletchling.Prelude.Map.{Map, lookup}
use fletchling.DbStore
use fletchling.DbStore.Rows.{Returned}
use fletchling.Geo.{Value, text, int64, Feature, ok, name_and_int_id_from_feature, id_is_valid}

abbrev pub properties_of : String → ℤ → Option String → Map String Value
properties_of name id none = ("name", text name) ∷ ("id", int64 id) ∷ []
properties_of name id (some area) =
    if area == ""
    then ("name", text name) ∷ ("id", int64 id) ∷ []
    else ("name", text name) ∷ ("id", int64 id) ∷ ("parent", text area) ∷ []

module _ (F : Floats) {Geometry : Type 0} (geometry_of : String → Option Geometry) where
  -- A row whose polygon is missing or does not parse is skipped.
  abbrev pub exported : DbStore.Nest F → Option Geometry → Option (Feature Geometry)
  exported row none = none
  exported row (some g) =
      some (record { properties = properties_of row.name row.nest_id row.area_name; geometry = g })

  abbrev pub and_feature :
      Option (Feature Geometry) → List (Feature Geometry) → List (Feature Geometry)
  and_feature none features = features
  and_feature (some feature) features = feature ∷ features

  unfoldable pub export_rows : List (DbStore.Nest F) → List (Feature Geometry)
  export_rows [] = []
  export_rows (row ∷ rows) = and_feature (exported row (geometry_of row.polygon)) (export_rows rows)

  abbrev pub rows_or_nil : Option (List (DbStore.Nest F)) → List (DbStore.Nest F)
  rows_or_nil none = []
  rows_or_nil (some rows) = rows

  -- With what GetAllNests returned; none if it returned an error.
  unfoldable pub export_features :
      Returned (Option (List (DbStore.Nest F))) → Option (List (Feature Geometry))
  unfolding export_rows
  export_features r = elim r.error [
    | some e ↦ none
    | none ↦ some (export_rows (rows_or_nil r.value))
  ]

abbrev pub area_of : Option String → Option String
area_of none = none
area_of (some area) = if area == "" then none else some area

-- The name, the area and the id of a row come back from the feature that is exported for it.
pub name_and_int_id_from_feature-exported :
    {Geometry : Type 0} (name : String) (id : ℤ) (area : Option String) (g : Geometry)
    → name_and_int_id_from_feature
        (record { properties = properties_of name id area; geometry = g })
      ≡ ok (record { name = name; area_name = area_of area; nest_id = id })
unfolding name_and_int_id_from_feature lookup id_is_valid
name_and_int_id_from_feature-exported name id none g = refl
name_and_int_id_from_feature-exported name id (some area) g = elim (Bool-cases (area == "")) [
  | inl empty ↦ rw empty refl
  | inr other ↦ rw other (rw other refl)
]
