-- ===== src/Koji/Properties/Found.antt =====
-- What the client finds among the properties that it keeps, koji_client/admin.go and models.go.
use fletchling.Prelude.{
  ◌≡◌, refl, ◌∙◌, Option, none, some, List, [], ◌∷◌, String, ◌==◌, string_eq, if◌then◌else◌,
}
use fletchling.Prelude.Choice.{or_else, or_else-pass, or_else-none}
use fletchling.Prelude.Map.{Map, lookup, insert, lookup-insert, lookup-nil}
use fletchling.Koji.{Property, Codec, by_name, as_map_by_name}
use fletchling.Koji.Requests.{Request, Reply, State, ok}
use fletchling.Koji.Properties.{
  get_all_properties, cli_props, refresh_properties_from_koji, get_properties, get_property_by_name,
}

-- The last property of the name.
unfoldable pub last_named : String → List Property → Option Property
last_named name [] = none
last_named name (p ∷ ps) = or_else (last_named name ps) (if p.name == name then some p else none)

by_name-last :
    (name : String) (ps : List Property) (m : Map String Property)
    → lookup name (by_name ps m) ≡ or_else (last_named name ps) (lookup name m)
unfolding by_name last_named
by_name-last name [] m = refl
by_name-last name (p ∷ ps) m =
    by_name-last name ps (insert p.name p m)
    ∙ rw (lookup-insert p.name name p m)
        (or_else-pass (last_named name ps) (lookup name m) (p.name == name) p)

as_map_by_name-last :
    (name : String) (ps : List Property) → lookup name (as_map_by_name ps) ≡ last_named name ps
unfolding as_map_by_name by_name last_named
as_map_by_name-last name ps =
    by_name-last name ps []
    ∙ rw (lookup-nil {V = Property} name) (or_else-none (last_named name ps))

module _ {Geometry B W : Type 0} (codec : Codec Geometry B)
    (serve : Request B → W → Option (Reply B) × W) where
  -- Once all properties were read, the last one of a name is found with no further request.
  pub get_property_by_name-refreshed :
      (ps : List Property) (s s' : State W) (name : String)
      → get_all_properties codec serve s ≡ ok ps s'
      → let kept = record s' { props = some (cli_props codec serve ps) } in
        (refresh_properties_from_koji codec serve s ≡ ok (cli_props codec serve ps) kept)
        × (get_property_by_name codec serve name kept ≡ ok (last_named name ps) kept)
  unfolding refresh_properties_from_koji get_properties get_property_by_name
  get_property_by_name-refreshed ps s s' name h = (rw h refl, rw (as_map_by_name-last name ps) refl)
