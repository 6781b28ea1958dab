-- ===== src/Geo/Examples.antt =====
-- Concrete files of fences, geo/geofences.go.
use fletchling.Prelude.{◌≡◌, ◌↔◌, ℕ, Option, none, List, [], ◌∷◌, panic, bad_index}
use fletchling.Prelude.Float.{fractions}
use fletchling.Geo.{Feature, text}
use fletchling.Geo.Files.{
  Point, GeofencesFileEntry, load_features_from_file, IsBlank, load_features_from_file_panics,
}

abbrev no_collection : List ℕ → Option (Option (List (Feature (List (Point fractions)))))
no_collection contents = none

abbrev no_geofences : List ℕ → Option (List (GeofencesFileEntry fractions))
no_geofences contents = none

load_features_from_file_panics_example :
    (load_features_from_file fractions no_collection no_geofences (b' ' ∷ []) ≡ panic bad_index)
    ↔ IsBlank fractions (b' ' ∷ [])
load_features_from_file_panics_example =
    load_features_from_file_panics fractions no_collection no_geofences (b' ' ∷ [])

abbrev corner : ℕ → ℕ → Point fractions
corner lat lon = (record { num = lat; den = 1 }, record { num = lon; den = 1 })

abbrev park : GeofencesFileEntry fractions
park = record { name = "Park"; path = corner 1 2 ∷ corner 1 3 ∷ corner 2 3 ∷ [] }

abbrev park_feature : Feature (List (Point fractions))
park_feature = record {
  properties = ("name", text "Park") ∷ [];
  geometry = corner 2 1 ∷ corner 3 1 ∷ corner 3 2 ∷ corner 2 1 ∷ [];
}
