-- ===== src/Areas.antt =====
-- Names of areas and their wildcards, areas/area.go.
pub mod Names
pub mod Loader
pub mod Config
pub mod Examples
use Prim.Native.Char.{Char, code}
use Prim.Native.String
use mathlib.Core.Bool.{◌&&◌, ◌||◌, not}
use fletchling.Prelude.{
  Bool, true, false, List, [], ◌∷◌, map, if◌then◌else◌, eqb, ◌==◌, string_eq, String,
}

pub record AreaName : Type 0 where
  pub parent : String
  pub name : String
  pub full_name : String

-- `parent + "/" + name`
abbrev pub with_slash : String → String → String
with_slash parent name = String.◌++◌ parent (String.◌++◌ "/" name)

unfoldable pub new_area_name : String → String → AreaName
new_area_name parent name = record {
  parent = parent;
  name = name;
  full_name =
      if not (parent == "") && not (parent == "*")
      then (if name == "" || parent == name then parent else with_slash parent name)
      else if not (name == "")
      then name
      else "world";
}

-- A character before the first part.
abbrev pub cons_first : Char → List String → List String
cons_first c [] = String.◌∷◌ c "" ∷ []
cons_first c (part ∷ parts) = String.◌∷◌ c part ∷ parts

-- `strings.Split(s, "/")`
unfoldable pub split_slash : String → List String
split_slash String.[] = "" ∷ []
split_slash (String.◌∷◌ c s) =
    let parts = split_slash s in if eqb (code c) b'/' then "" ∷ parts else cons_first c parts

-- Only exactly one slash tells the parent from the name.
abbrev pub of_parts : String → List String → AreaName
of_parts area (parent ∷ name ∷ []) = new_area_name parent name
of_parts area _ = new_area_name "*" area

unfoldable pub area_string_to_area_name : String → AreaName
unfolding split_slash
area_string_to_area_name area = of_parts area (split_slash area)

unfoldable pub area_strings_to_area_names : List String → List AreaName
unfolding area_string_to_area_name
area_strings_to_area_names = map area_string_to_area_name

unfoldable pub matches_one : AreaName → AreaName → Bool
matches_one area w =
    if w.name == "*"
    then w.parent == "*" || w.parent == area.parent
    else if w.parent == "*"
    then w.name == area.name
    else w.parent == area.parent && w.name == area.name

unfoldable pub area_name_matches : AreaName → List AreaName → Bool
unfolding matches_one
area_name_matches area [] = false
area_name_matches area (w ∷ ws) = if matches_one area w then true else area_name_matches area ws
