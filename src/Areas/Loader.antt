-- ===== src/Areas/Loader.antt =====
-- AreasCache and AreasLoader of areas/loader.go. What Koji answers, the bytes of a file, the decoders of
-- geo/ and the failures of the file system are parameters. Logging is left out.
pub mod Served
pub mod Started
pub mod Examples
use fletchling.Prelude.{
  ℕ, ◌+◌, Bool, true, Option, none, some, List, [], ◌∷◌, String, ◌==◌, string_eq, eqb, length,
  if◌then◌else◌, Outcome, done, panic,
}
use fletchling.Prelude.Float.{Floats}
use fletchling.Prelude.Map.{Map, lookup, insert}
use fletchling.Geo.{Feature, text_of, not_empty}
use fletchling.Geo.Files.{
  FileError, Loaded, ok, err, Point, GeofencesFileEntry, load_features_from_file,
}

-- The file of areas that updateCache writes, and the temporary files that it leaves.
pub record Disk (A : Type 0) : Type 0 where
  pub cached : Option A
  pub leftovers : ℕ

-- What fails while it writes.
pub record DiskFaults : Type 0 where
  pub creating : Bool
  pub encoding : Bool
  pub removing : Bool
  pub renaming : Bool

pub data LoaderError : Type 0 where
  koji_failed no_file : LoaderError
  bad_file : FileError → LoaderError
  not_created not_encoded not_renamed : LoaderError

pub record AreasCache (Geometry : Type 0) : Type 0 where
  pub areas : List (Feature Geometry)
  pub areas_map : Map String (Feature Geometry)

pub record AreasLoader (Geometry : Type 0) : Type 0 where
  pub koji_project : String
  pub filename : String
  pub cache_dir : String
  pub cache_filename : String
  pub areas_cache : Option (AreasCache Geometry)

abbrev leave : {A : Type 0} → Disk A → Disk A
leave disk = record disk { leftovers = disk.leftovers + 1 }

module _ {Geometry : Type 0} where
  abbrev pub name_of : Feature Geometry → Option String
  unfolding lookup
  name_of area = not_empty (text_of (lookup "name" area.properties))

  abbrev add_area :
      Option String
      → Feature Geometry
      → Map String (Feature Geometry)
      → Map String (Feature Geometry)
  unfolding insert
  add_area none area m = m
  add_area (some name) area m = insert name area m

  -- An area with no name is not in the map.
  unfoldable pub areas_by_name :
      List (Feature Geometry) → Map String (Feature Geometry) → Map String (Feature Geometry)
  unfolding name_of add_area
  areas_by_name [] m = m
  areas_by_name (area ∷ areas) m = areas_by_name areas (add_area (name_of area) area m)

  unfoldable pub set_areas : List (Feature Geometry) → AreasCache Geometry
  unfolding areas_by_name
  set_areas areas = record { areas = areas; areas_map = areas_by_name areas [] }

  abbrev pub area_of_cache : String → AreasCache Geometry → Option (Feature Geometry)
  unfolding lookup
  area_of_cache area_name cache = lookup area_name cache.areas_map

  unfoldable pub update_cache :
      AreasLoader Geometry
      → DiskFaults
      → List (Feature Geometry)
      → Disk (List (Feature Geometry))
      → Option LoaderError × Disk (List (Feature Geometry))
  update_cache loader faults areas disk =
      if loader.cache_filename == ""
      then (none, disk)
      else if faults.creating
      then (some not_created, disk)
      else if faults.encoding
      then (some not_encoded, if faults.removing then leave disk else disk)
      else if faults.renaming
      then (some not_renamed, leave disk)
      else (none, record disk { cached = some areas })

  -- `read` is what the file decodes to, if it can be read.
  unfoldable pub load_from_cache :
      Option (List (Feature Geometry))
      → AreasLoader Geometry
      → Option LoaderError × AreasLoader Geometry
  unfolding set_areas
  load_from_cache read loader = if loader.cache_filename == "" then (none, loader) else elim read [
    | none ↦ (some no_file, loader)
    | some areas ↦ (none, record loader { areas_cache = some (set_areas areas) })
  ]

  abbrev pub is_empty : Option (AreasCache Geometry) → Bool
  is_empty none = true
  is_empty (some cache) = eqb (length cache.areas) 0

module _ (F : Floats) (collection : List ℕ → Option (Option (List (Feature (List (Point F))))))
    (geofences : List ℕ → Option (List (GeofencesFileEntry F))) where
  abbrev pub Areas : Type 0
  Areas = List (Feature (List (Point F)))

  -- What the world answers while areas are loaded.
  pub record World : Type 0 where
    pub get_feature_collection : String → Option Areas
    pub contents : String → Option (List ℕ)
    pub faults : DiskFaults

  pub data Fetched : Type 0 where
    fetched : Areas → Fetched
    failed : LoaderError → Fetched

  abbrev of_koji : Option Areas → Fetched
  of_koji none = failed koji_failed
  of_koji (some areas) = fetched areas

  abbrev of_loaded : Outcome (Loaded Areas) → Outcome Fetched
  of_loaded (panic e) = panic e
  of_loaded (done (err e)) = done (failed (bad_file e))
  of_loaded (done (ok areas)) = done (fetched areas)

  abbrev of_file : Option (List ℕ) → Outcome Fetched
  unfolding load_features_from_file
  of_file none = done (failed no_file)
  of_file (some contents) = of_loaded (load_features_from_file F collection geofences contents)

  unfoldable pub fetch : World → AreasLoader (List (Point F)) → Outcome Fetched
  unfolding of_file
  fetch world loader =
      if loader.filename == ""
      then done (of_koji (world.get_feature_collection loader.koji_project))
      else of_file (world.contents loader.filename)

  -- The loader and the disk.
  abbrev pub State : Type 0
  State = AreasLoader (List (Point F)) × Disk Areas

  abbrev pub store_areas : World → Areas → State → State
  unfolding set_areas update_cache
  store_areas world areas (loader, disk) =
      let loader' = record loader { areas_cache = some (set_areas areas) } in
      (loader', (update_cache loader' world.faults areas disk).1)

  abbrev pub stored : World → State → Outcome Fetched → Outcome (Option LoaderError × State)
  unfolding store_areas
  stored world s (panic e) = panic e
  stored world s (done (failed e)) = done (some e, s)
  stored world s (done (fetched areas)) = done (none, store_areas world areas s)

  unfoldable pub reload_areas : World → State → Outcome (Option LoaderError × State)
  unfolding fetch stored
  reload_areas world s = stored world s (fetch world s.0)

  abbrev state_of : Outcome (Option LoaderError × State) → Outcome State
  state_of (panic e) = panic e
  state_of (done (_, s)) = done s

  -- An error of the reload is not looked at.
  unfoldable pub get_areas_cache : World → State → Outcome State
  unfolding reload_areas
  get_areas_cache world s =
      if is_empty s.0.areas_cache then state_of (reload_areas world s) else done s

  abbrev areas_of : Option (AreasCache (List (Point F))) → Areas
  areas_of none = []
  areas_of (some cache) = cache.areas

  abbrev area_of : String → Option (AreasCache (List (Point F))) → Option (Feature (List (Point F)))
  unfolding area_of_cache
  area_of area_name none = none
  area_of area_name (some cache) = area_of_cache area_name cache

  abbrev with_areas : Outcome State → Outcome (Areas × State)
  with_areas (panic e) = panic e
  with_areas (done s) = done (areas_of s.0.areas_cache, s)

  unfoldable pub get_all_areas : World → State → Outcome (Areas × State)
  unfolding get_areas_cache
  get_all_areas world s = with_areas (get_areas_cache world s)

  abbrev with_area : String → Outcome State → Outcome (Option (Feature (List (Point F))) × State)
  unfolding area_of
  with_area area_name (panic e) = panic e
  with_area area_name (done s) = done (area_of area_name s.0.areas_cache, s)

  unfoldable pub get_area :
      World → String → State → Outcome (Option (Feature (List (Point F))) × State)
  unfolding get_areas_cache with_area
  get_area world area_name s = with_area area_name (get_areas_cache world s)
