-- ===== src/Importers/Koji.antt =====
-- KojiImporter of importers/koji.go, on the client of Koji/. The type of a geometry and the text of its
-- label point are parameters, as are the server and JSON. A map of properties is read in any order.
-- No feature is twice in a list, so the name that is written into one is seen by no other; and no name
-- is empty once it is made safe, so the test for an empty one is left out.
pub mod Named
pub mod Once
use Prim.Native.String
use mathlib.Core.Bool.{◌||◌, not}
use fletchling.Prelude.{
  ℤ, pos, Bool, true, false, Option, none, some, List, [], ◌∷◌, String, ◌==◌, int_eq, string_eq,
  if◌then◌else◌,
}
use fletchling.Prelude.Time.{Time}
use fletchling.Prelude.Map.{Map, lookup, insert}
use fletchling.Geo.{
  Value, nil, other, text, int, int64, uint, uint64, Feature, FeatureError, no_id, Parsed,
  NameAndId, id_is_valid, text_of, not_empty, name_and_int_id_from_feature,
}
use fletchling.Geo
use fletchling.Geo.Kinds
use fletchling.Geo.Kinds.{Kind}
use fletchling.Koji.{Property, GeofenceProperty, Geofence, Codec, looks_like_number}
use fletchling.Koji.Requests.{Request, Reply, State, Run, ok, err, Call, pure, ◌>>=◌}
use fletchling.Koji.Properties.{
  get_property_by_name, get_or_create_property, refresh_properties_from_koji,
}
use fletchling.Koji.Geofences.{create_geofence, get_project_by_name, get_all_geofences_full}

unfoldable pub kind_of : Value → Kind
kind_of nil = Kinds.invalid
kind_of (text _) = Kinds.string
kind_of (int _) = Kinds.int
kind_of (int64 _) = Kinds.int64
kind_of (uint _) = Kinds.uint
kind_of (uint64 _) = Kinds.uint64
kind_of (other kind) = kind

abbrev is_nil : Value → Bool
is_nil nil = true
is_nil _ = false

-- A name that looks like a number gets a word before it.
unfoldable pub safe_name : String → String
unfolding looks_like_number
safe_name name = if looks_like_number name then String.◌++◌ "Nest " name else name

unfoldable pub nest_id_from_properties : List GeofenceProperty → Parsed ℤ
unfolding id_is_valid
nest_id_from_properties [] = Geo.err no_id
nest_id_from_properties (p ∷ ps) =
    if p.name == "id" then id_is_valid p.value else nest_id_from_properties ps

module _ {Geometry B W : Type 0} (codec : Codec Geometry B)
    (serve : Request B → W → Option (Reply B) × W) (now : Time) (geo_type : Geometry → String)
    (label_text : Geometry → String) (create_properties : Bool) where
  -- The two maps of ImportFeatures.
  pub record Known : Type 0 where
    pub by_name : Map String (Geofence Geometry)
    pub by_nest_id : Map ℤ (Geofence Geometry)

  -- A name that exists gets the label point after it, whether or not that exists too.
  unfoldable pub check_duplicate : Map String (Geofence Geometry) → Geometry → String → String
  unfolding lookup
  check_duplicate geofences g name = elim (lookup name geofences) [
    | none ↦ name
    | some _ ↦ String.◌++◌ name (label_text g)
  ]

  unfoldable pub parent_of : Map String (Geofence Geometry) → Map String Value → Option ℤ
  unfolding lookup
  parent_of geofences properties = elim (not_empty (text_of (lookup "parent" properties))) [
    | none ↦ none
    | some parent ↦ elim (lookup parent geofences) [ none ↦ none | some g ↦ some g.id ]
  ]

  unfoldable pub property_for : String → Value → Call W (Option Property)
  unfolding get_property_by_name get_or_create_property kind_of
  property_for key value =
      if not create_properties || is_nil value then get_property_by_name codec serve key else do
        property ← get_or_create_property codec serve now key (kind_of value)
        pure (some property)

  -- A property that Koji does not have, or that fails, is left out.
  unfoldable pub geofence_properties : Map String Value → State W → List GeofenceProperty × State W
  unfolding property_for
  geofence_properties [] s = ([], s)
  geofence_properties ((key, value) ∷ rest) s = elim (property_for key value s) [
    | err _ s' ↦ geofence_properties rest s'
    | ok none s' ↦ geofence_properties rest s'
    | ok (some p) s' ↦
        let (ps, s'') = geofence_properties rest s' in
        (record { property_id = p.property_id; name = key; value = value } ∷ ps, s'')
  ]

  abbrev pub new_geofence :
      String → Option ℤ → Geometry → List ℤ → List GeofenceProperty → Geofence Geometry
  new_geofence name parent g projects properties = record {
    id = pos 0;
    name = name;
    geo_type = geo_type g;
    mode = "unset";
    parent = parent;
    created_at = none;
    updated_at = none;
    geometry = g;
    properties = properties;
    projects = projects;
  }

  -- What a call of CreateGeofence leaves: a failed one leaves the two maps alone.
  abbrev pub noted : ℤ → Known → Run W (Geofence Geometry) → Known × State W
  noted nest_id known (err _ s) = (known, s)
  noted nest_id known (ok geofence s) = (
    record {
      by_name = insert geofence.name geofence known.by_name;
      by_nest_id = insert nest_id geofence known.by_nest_id;
    },
    s,
  )

  -- The geofence that is made of the feature, and the client once its properties are known.
  unfoldable pub prepared :
      List ℤ → Feature Geometry → String → Known → State W → Geofence Geometry × State W
  unfolding check_duplicate parent_of geofence_properties insert
  prepared projects feature name known s =
      let name = check_duplicate known.by_name feature.geometry name in
      let properties = insert "name" (text name) feature.properties in
      let (geofence_props, s) = geofence_properties properties s in
      (
        new_geofence name (parent_of known.by_name properties) feature.geometry projects
            geofence_props,
        s,
      )

  abbrev pub create_noted : ℤ → Known → Geofence Geometry × State W → Known × State W
  unfolding create_geofence insert
  create_noted nest_id known (geofence, s) =
      noted nest_id known (create_geofence codec serve now geofence s)

  abbrev pub import_new :
      List ℤ
      → Feature Geometry
      → NameAndId
      → Option (Geofence Geometry)
      → Known
      → State W
      → Known × State W
  unfolding prepared create_noted safe_name
  import_new projects feature f (some _) known s = (known, s)
  import_new projects feature f none known s =
      create_noted f.nest_id known (prepared projects feature (safe_name f.name) known s)

  abbrev pub import_parsed :
      List ℤ → Feature Geometry → Parsed NameAndId → Known → State W → Known × State W
  unfolding import_new lookup
  import_parsed projects feature (Geo.err _) known s = (known, s)
  import_parsed projects feature (Geo.ok f) known s =
      import_new projects feature f (lookup f.nest_id known.by_nest_id) known s

  unfoldable pub import_feature : List ℤ → Feature Geometry → Known → State W → Known × State W
  unfolding import_parsed name_and_int_id_from_feature
  import_feature projects feature known s =
      import_parsed projects feature (name_and_int_id_from_feature feature) known s

  unfoldable pub import_loop : List ℤ → List (Feature Geometry) → Known → State W → Known × State W
  unfolding import_feature
  import_loop projects [] known s = (known, s)
  import_loop projects (feature ∷ features) known s =
      let (known, s) = import_feature projects feature known s in
      import_loop projects features known s

  abbrev contains : ℤ → List ℤ → Bool
  contains id [] = false
  contains id (i ∷ ids) = if i == id then true else contains id ids

  abbrev with_id :
      Parsed ℤ → Geofence Geometry → Map ℤ (Geofence Geometry) → Map ℤ (Geofence Geometry)
  unfolding insert
  with_id (Geo.err _) geofence m = m
  with_id (Geo.ok id) geofence m = insert id geofence m

  -- Every geofence is known by its name, and those of the project by the nest that they are of.
  unfoldable pub known_geofences : List ℤ → List (Geofence Geometry) → Known → Known
  unfolding nest_id_from_properties with_id insert
  known_geofences ids [] known = known
  known_geofences ids (geofence ∷ geofences) known = known_geofences ids geofences (record {
    by_name = insert geofence.name geofence known.by_name;
    by_nest_id =
        if contains geofence.id ids
        then with_id (nest_id_from_properties geofence.properties) geofence known.by_nest_id
        else known.by_nest_id;
  })

  abbrev state_after : {A : Type 0} → Run W A → State W
  state_after (ok _ s) = s
  state_after (err _ s) = s

  abbrev imported : Known × State W → Run W Known
  imported (known, s) = ok known s

  -- Whether the properties can be read at first does not matter.
  unfoldable pub import_features : String → List (Feature Geometry) → Call W Known
  unfolding refresh_properties_from_koji get_project_by_name get_all_geofences_full known_geofences
      import_loop
  import_features project_name features s =
      (do
        project ← get_project_by_name codec serve project_name
        geofences ← get_all_geofences_full codec serve
        λ s. imported (
            import_loop (project.id ∷ []) features
              (known_geofences project.geofences geofences
                (record { by_name = []; by_nest_id = [] }))
              s))
        (state_after (refresh_properties_from_koji codec serve s))
