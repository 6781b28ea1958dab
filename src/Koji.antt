-- ===== src/Koji.antt =====
-- The client of Koji's administration, koji_client/: its data. JSON is a parameter.
pub mod Requests
pub mod Session
pub mod Properties
pub mod Geofences
pub mod Examples
use Prim.Native.Char.{code}
use Prim.Native.String
use mathlib.Core.Bool.{◌&&◌, ◌||◌}
use fletchling.Prelude.{
  ℕ, ℤ, Bool, true, Option, List, [], ◌∷◌, String, leb, eqb, int_eq, string_eq,
}
use fletchling.Prelude.Time.{Time}
use fletchling.Prelude.Map.{Map, insert}
use fletchling.Geo.{Value}

pub record Property : Type 0 where
  pub name : String
  pub category : String
  pub property_id : ℤ
  pub created_at : Option Time
  pub updated_at : Option Time

pub record GeofenceProperty : Type 0 where
  pub property_id : ℤ
  pub name : String
  pub value : Value

pub record GeofenceBrief : Type 0 where
  pub id : ℤ
  pub name : String

pub record Geofence (Geometry : Type 0) : Type 0 where
  pub id : ℤ
  pub name : String
  pub geo_type : String
  pub mode : String
  pub parent : Option ℤ
  pub created_at : Option Time
  pub updated_at : Option Time
  pub geometry : Geometry
  pub properties : List GeofenceProperty
  pub projects : List ℤ

pub record ProjectBrief : Type 0 where
  pub id : ℤ
  pub name : String

pub record Project : Type 0 where
  pub id : ℤ
  pub name : String
  pub geofences : List ℤ

-- Of two properties with one name, the later one is found.
unfoldable pub by_name : List Property → Map String Property → Map String Property
unfolding insert
by_name [] m = m
by_name (p ∷ ps) m = by_name ps (insert p.name p m)

unfoldable pub by_id : List Property → Map ℤ Property → Map ℤ Property
unfolding insert
by_id [] m = m
by_id (p ∷ ps) m = by_id ps (insert p.property_id p m)

abbrev pub as_map_by_name : List Property → Map String Property
unfolding by_name
as_map_by_name ps = by_name ps []

abbrev pub as_map_by_id : List Property → Map ℤ Property
unfolding by_id
as_map_by_id ps = by_id ps []

abbrev pub of_number : ℕ → Bool
of_number c = leb b'0' c && leb c b'9' || eqb c b'.' || eqb c b'-' || eqb c b'+'

-- Nothing but digits, points and signs: also the empty text.
unfoldable pub looks_like_number : String → Bool
looks_like_number String.[] = true
looks_like_number (String.◌∷◌ c s) = of_number (code c) && looks_like_number s

-- The encoder and the decoders of JSON, each of which may fail. B is a body.
pub record Codec (Geometry B : Type 0) : Type 0 where
  pub of_login : String → Option B
  pub of_geofence : Geofence Geometry → Option B
  pub of_property : Property → Option B
  pub to_geofence : B → Option (Geofence Geometry)
  pub to_geofences : B → Option (List GeofenceBrief)
  pub to_property : B → Option Property
  pub to_properties : B → Option (List Property)
  pub to_projects : B → Option (List ProjectBrief)
  pub to_project : B → Option Project
