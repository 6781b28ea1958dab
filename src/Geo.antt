-- ===== src/Geo.antt =====
-- Features and their ids, in geo/util.go and geo/geofences.go. Geometry is that of the orb package.
pub mod Kinds
pub mod Files
pub mod Examples
pub mod Features
pub mod Fences
use Prim.Native.Char.{code}
use Prim.Native.String
use mathlib.Core.Bool.{◌&&◌}
use fletchling.Prelude.{
  ℕ, ◌+◌, ◌-◌, ◌*◌, ◌^◌, ℤ, pos, negsuc, Bool, true, false, Option, none, some, List, [], ◌∷◌, leb,
  ltb, eqb, if◌then◌else◌, string_eq, String, ◌==◌,
}
use fletchling.Prelude.Float.{Floats}
use fletchling.Prelude.Map.{Map, lookup}
use fletchling.Prelude.Word.{u64_of_ℤ, i64_of_ℕ, u64_mod}
use Kinds.{Kind}

-- A property's value, of the types that the code tells apart.
pub data Value : Type 0 where
  nil : Value
  other : Kind → Value
  text : String → Value
  int int64 : ℤ → Value
  uint uint64 : ℕ → Value

pub record Feature (Geometry : Type 0) : Type 0 where
  pub properties : Map String Value
  pub geometry : Geometry

pub data FeatureError : Type 0 where
  no_name no_id bad_number bad_type : FeatureError

-- The bytes of a text, if it is ASCII; no other character is a digit either.
abbrev pub codes : String → List ℕ
codes String.[] = []
codes (String.◌∷◌ c s) = code c ∷ codes s

-- strconv.ParseUint of base 10, for the digits that are left.
unfoldable pub parse_digits : List ℕ → ℕ → Option ℕ
parse_digits [] n = some n
parse_digits (c ∷ cs) n =
    if leb b'0' c && leb c b'9' then parse_digits cs (n * 10 + (c - b'0')) else none

abbrev pub below : ℕ → Option ℕ → Option ℕ
below limit none = none
below limit (some n) = if ltb n limit then some n else none

unfoldable pub parse_uint : List ℕ → Option ℕ
unfolding parse_digits
parse_uint [] = none
parse_uint (c ∷ cs) = below u64_mod (parse_digits (c ∷ cs) 0)

abbrev pub positive : Option ℕ → Option ℤ
positive none = none
positive (some n) = if ltb n (2 ^ 63) then some (pos n) else none

abbrev pub negative : Option ℕ → Option ℤ
negative none = none
negative (some n) =
    if eqb n 0 then some (pos 0) else if leb n (2 ^ 63) then some (negsuc (n - 1)) else none

-- strconv.ParseInt of base 10 and 64 bits.
unfoldable pub parse_int : String → Option ℤ
unfolding parse_uint
parse_int s = elim (codes s) [
  | [] ↦ none
  | c ∷ cs ↦
      if eqb c b'-'
      then negative (parse_uint cs)
      else if eqb c b'+'
      then positive (parse_uint cs)
      else positive (parse_uint (c ∷ cs))
]

pub data Parsed (A : Type 0) : Type 0 where
  ok : A → Parsed A
  err : FeatureError → Parsed A

abbrev number_or_err : Option ℤ → Parsed ℤ
number_or_err none = err bad_number
number_or_err (some z) = ok z

unfoldable pub id_is_valid : Value → Parsed ℤ
unfolding parse_int
id_is_valid (text s) = number_or_err (parse_int s)
id_is_valid (int z) = ok z
id_is_valid (uint n) = ok (i64_of_ℕ n)
id_is_valid (int64 z) = ok z
id_is_valid (uint64 n) = ok (i64_of_ℕ n)
id_is_valid nil = err bad_type
id_is_valid (other _) = err bad_type

abbrev pub text_of : Option Value → Option String
text_of (some (text s)) = some s
text_of _ = none

abbrev pub not_empty : Option String → Option String
not_empty none = none
not_empty (some s) = if s == "" then none else some s

abbrev id_of : Option Value → Parsed ℤ
id_of none = err no_id
id_of (some v) = id_is_valid v

pub record NameAndId : Type 0 where
  pub name : String
  pub area_name : Option String
  pub nest_id : ℤ

abbrev named : String → Option String → Parsed ℤ → Parsed NameAndId
named name area_name (err e) = err e
named name area_name (ok id) = ok (record { name = name; area_name = area_name; nest_id = id })

module _ {Geometry : Type 0} where
  unfoldable pub name_and_int_id_from_feature : Feature Geometry → Parsed NameAndId
  unfolding lookup id_is_valid
  name_and_int_id_from_feature feature = elim (text_of (lookup "name" feature.properties)) [
    | none ↦ err no_name
    | some name ↦
        named name (not_empty (text_of (lookup "parent" feature.properties)))
          (id_of (lookup "id" feature.properties))
  ]

-- Only these two types of geometry have an area in which a point can lie.
unfoldable pub geometry_supported : String → Bool
geometry_supported kind =
    if kind == "Polygon" then true else if kind == "MultiPolygon" then true else false

module _ (F : Floats) {Polygon : Type 0} (area_of : Polygon → F.Float) where
  abbrev pub larger : Polygon → Polygon → Polygon
  larger best poly = if F.lt (area_of best) (area_of poly) then poly else best

  unfoldable pub largest_loop : Polygon → List Polygon → Polygon
  largest_loop best [] = best
  largest_loop best (poly ∷ polys) = largest_loop (larger best poly) polys

  unfoldable pub get_largest_polygon : List Polygon → Option Polygon
  unfolding largest_loop
  get_largest_polygon [] = none
  get_largest_polygon (best ∷ polys) = some (largest_loop best polys)
