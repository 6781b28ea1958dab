-- ===== src/Areas/Names.antt =====
-- Reading back the names of areas, and what a wildcard matches, in areas/area.go.
use Prim.Native.Char.{code}
use Prim.Native.String
use mathlib.Core.Bool.{◌&&◌, ◌||◌}
use fletchling.Prelude.{
  ◌≡◌, refl, ap, ◌∙◌, Bool, false, List, [], ◌∷◌, eqb, ◌==◌, string_eq, String, arith,
}
use fletchling.Prelude.Strings.{nil-append, cons-append}
use fletchling.Areas.{
  AreaName, with_slash, new_area_name, split_slash, of_parts, area_string_to_area_name, matches_one,
  area_name_matches,
}

abbrev pub HasNoSlash : String → Type 0
HasNoSlash String.[] = Unit {0}
HasNoSlash (String.◌∷◌ c s) = (eqb (code c) b'/' ≡ false) × HasNoSlash s

split_whole : (s : String) → HasNoSlash s → split_slash s ≡ s ∷ []
unfolding split_slash
split_whole String.[] h = refl
split_whole (String.◌∷◌ c s) (other, h) = rw (other, split_whole s h) refl

slash-append : (t : String) → String.◌++◌ "/" t ≡ String.◌∷◌ "/" t
slash-append t = cons-append "/" "" t ∙ ap (String.◌∷◌ "/") (nil-append t)

split_with_slash :
    (parent name : String)
    → HasNoSlash parent
    → HasNoSlash name
    → split_slash (with_slash parent name) ≡ parent ∷ name ∷ []
unfolding split_slash
split_with_slash String.[] name h k =
    rw (nil-append (String.◌++◌ "/" name), slash-append name) (rw (split_whole name k) refl)
split_with_slash (String.◌∷◌ c s) name (other, h) k =
    rw (cons-append c s (String.◌++◌ "/" name)) (rw (other, split_with_slash s name h k) refl)

-- The full name that NewAreaName makes of a parent that is neither empty nor * and of a name that
-- is neither empty nor the parent, neither with a slash in it, is read back by
-- AreaStringToAreaName as the same area.
pub area_string_to_area_name-new_area_name :
    (parent name : String)
    → HasNoSlash parent
    → HasNoSlash name
    → (parent == "" || parent == "*") ≡ false
    → (name == "" || parent == name) ≡ false
    → area_string_to_area_name (new_area_name parent name).full_name ≡ new_area_name parent name
unfolding area_string_to_area_name new_area_name
area_string_to_area_name-new_area_name parent name h k named other =
    let not_empty : (parent == "") ≡ false = ground (arith, named) in
    let not_any : (parent == "*") ≡ false = ground (arith, named) in
    let full : (new_area_name parent name).full_name ≡ with_slash parent name =
      rw (not_empty, not_any, other) refl in
    ap area_string_to_area_name full
    ∙ ap (of_parts (with_slash parent name)) (split_with_slash parent name h k)

abbrev covers : String → String → Bool
covers pattern text = pattern == "*" || pattern == text

abbrev pub any_covers : AreaName → List AreaName → Bool
any_covers area [] = false
any_covers area (w ∷ ws) =
    (covers w.parent area.parent && covers w.name area.name) || any_covers area ws

-- AreaNameMatches says true exactly if some wildcarded area covers both the parent and the name,
-- where a part covers a text if it is * or the text.
pub area_name_matches-any_covers :
    (area : AreaName) (ws : List AreaName) → area_name_matches area ws ≡ any_covers area ws
unfolding area_name_matches matches_one
area_name_matches-any_covers area [] = refl
area_name_matches-any_covers area (w ∷ ws) = ground (arith, area_name_matches-any_covers area ws)
