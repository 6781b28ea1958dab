-- ===== src/Areas/Examples.antt =====
-- The theorems about areas/area.go applied to a part of a town.
use fletchling.Prelude.{◌≡◌, refl, List, [], ◌∷◌}
use fletchling.Areas.{AreaName, new_area_name, area_string_to_area_name, area_name_matches}
use fletchling.Areas.Names.{
  area_string_to_area_name-new_area_name, area_name_matches-any_covers, any_covers,
}

area_string_to_area_name-new_area_name_example :
    area_string_to_area_name (new_area_name "York" "Fulford").full_name
    ≡ new_area_name "York" "Fulford"
area_string_to_area_name-new_area_name_example =
    area_string_to_area_name-new_area_name "York" "Fulford" (refl, (refl, (refl, (refl, tt))))
      (refl, (refl, (refl, (refl, (refl, (refl, (refl, tt))))))) refl refl

abbrev wildcards : List AreaName
wildcards = new_area_name "York" "*" ∷ new_area_name "*" "Chelsea" ∷ []

area_name_matches-any_covers_example :
    area_name_matches (new_area_name "York" "Fulford") wildcards
    ≡ any_covers (new_area_name "York" "Fulford") wildcards
area_name_matches-any_covers_example =
    area_name_matches-any_covers (new_area_name "York" "Fulford") wildcards
