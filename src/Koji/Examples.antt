-- ===== src/Koji/Examples.antt =====
-- A server of Koji that knows one page and two properties of one name, and what the client does there.
use fletchling.Prelude.{
  ℤ, pos, ◌≡◌, refl, Bool, true, false, Option, none, some, List, [], ◌∷◌, String, ◌==◌, string_eq,
  if◌then◌else◌, int_eq,
}
use fletchling.Geo.{Feature, text}
use fletchling.Koji.{Property, Geofence, Codec}
use fletchling.Koji.Requests.{get, post, Request, Reply, State, ok, make_internal_request}
use fletchling.Koji.Session.{Log, recording, sent, Exchange, make_internal_request-Exchange}
use fletchling.Koji.Properties.{cli_props, get_all_properties}
use fletchling.Koji.Properties.Found.{last_named}
use fletchling.Koji.Geofences.{itoa}
use fletchling.Importers.Koji.{Known, safe_name, prepared}
use fletchling.Importers.Koji.Once.{all, made_ids, AreNew, AreDistinct, AreKnown, import_loop-once}

abbrev page : String
page = "/property/all/"

abbrev serve : Request (Unit {0}) → Bool → Option (Reply (Unit {0})) × Bool
serve r w =
    if r.url == "koji/config/login"
    then (some (record { status = 200; body = tt }), true)
    else if r.url == "koji/internal/admin/property/all/"
    then (some (record { status = if w then 200 else 401; body = tt }), w)
    else (some (record { status = 404; body = tt }), w)

abbrev property : String → String → Property
property name category = record {
  name = name;
  category = category;
  property_id = pos 7;
  created_at = none;
  updated_at = none;
}

abbrev two_properties : List Property
two_properties = property "id" "string" ∷ property "id" "number" ∷ []

abbrev codec : Codec (Unit {0}) (Unit {0})
codec = record {
  of_login = λ _. some tt;
  of_geofence = λ _. some tt;
  of_property = λ _. some tt;
  to_geofence = λ _. none;
  to_geofences = λ _. none;
  to_property = λ _. none;
  to_properties = λ _. some two_properties;
  to_projects = λ _. none;
  to_project = λ _. none;
}

abbrev client : Bool → State Bool
client logged_in = record {
  url = "koji";
  bearer_token = "secret";
  props = none;
  server = logged_in;
}

-- The session has ended.
abbrev ended : State (Bool × Log (Unit {0}))
ended = record { url = "koji"; bearer_token = "secret"; props = none; server = (false, []) }

make_internal_request-Exchange_example :
    Exchange serve codec.of_login get page none ended
      (make_internal_request (recording serve) codec.of_login get page none ended)
make_internal_request-Exchange_example =
    make_internal_request-Exchange serve codec.of_login get page none ended

-- The second request for the page has lost the prefix of the address.
what_is_sent :
    sent serve (make_internal_request (recording serve) codec.of_login get page none ended)
    ≡ record { method = get; url = "koji/property/all/"; body = none }
      ∷ record { method = post; url = "koji/config/login"; body = some tt }
      ∷ record { method = get; url = "koji/internal/admin/property/all/"; body = none }
      ∷ []
unfolding make_internal_request
what_is_sent = refl

properties_are_read : get_all_properties codec serve (client true) ≡ ok two_properties (client true)
unfolding get_all_properties
properties_are_read = refl

abbrev kept : State Bool
kept = record (client true) { props = some (cli_props codec serve two_properties) }

the_later_one : last_named "id" two_properties ≡ some (property "id" "number")
unfolding last_named
the_later_one = refl

written : itoa (pos 1203) ≡ "1203"
unfolding itoa
written = refl

abbrev park : Feature (Unit {0})
park = record { properties = ("name", text "42") ∷ ("id", text "5") ∷ []; geometry = tt }

abbrev names : Unit {0} → String
names _ = "Polygon"

abbrev at_center : Unit {0} → String
at_center _ = " at 1.00000,2.00000"

abbrev geofence : String → Geofence (Unit {0})
geofence name = record {
  id = pos 3;
  name = name;
  geo_type = "Polygon";
  mode = "unset";
  parent = none;
  created_at = none;
  updated_at = none;
  geometry = tt;
  properties = [];
  projects = pos 1 ∷ [];
}

abbrev known : Known codec serve 0 names at_center false
known = record {
  by_name = ("Nest 42", geofence "Nest 42") ∷ [];
  by_nest_id = (pos 5, geofence "Nest 42") ∷ [];
}

the_name :
    (prepared codec serve 0 names at_center false [] park (safe_name "42") known kept).0.name
    ≡ "Nest 42 at 1.00000,2.00000"
unfolding prepared safe_name
the_name = refl

-- A server that takes every request.
abbrev taking : Request (Unit {0}) → Bool → Option (Reply (Unit {0})) × Bool
taking r w = (some (record { status = 200; body = tt }), w)

abbrev made_codec : Codec (Unit {0}) (Unit {0})
made_codec = record codec { to_geofence = λ _. some (geofence "Nest 42") }

abbrev nothing_known : Known made_codec taking 0 names at_center false
nothing_known = record { by_name = []; by_nest_id = [] }

-- A feature that comes twice is made once.
made_once :
    made_ids made_codec taking 0 names at_center false [] (park ∷ park ∷ []) nothing_known kept
    ≡ pos 5 ∷ []
unfolding made_ids fletchling.Prelude.Int.eqb_ℤ
made_once = refl

import_loop-once_example :
    AreNew made_codec taking 0 names at_center false [] nothing_known
      (made_ids made_codec taking 0 names at_center false [] (park ∷ park ∷ []) nothing_known kept)
    × AreDistinct made_codec taking 0 names at_center false [] (
        made_ids made_codec taking 0 names at_center false [] (park ∷ park ∷ []) nothing_known kept)
    × AreKnown made_codec taking 0 names at_center false []
        (all made_codec taking 0 names at_center false [] (park ∷ park ∷ []) nothing_known kept).0
        (made_ids made_codec taking 0 names at_center false []
          (park ∷ park ∷ [])
          nothing_known
          kept)
import_loop-once_example =
    import_loop-once made_codec taking 0 names at_center false [] (park ∷ park ∷ []) nothing_known
      kept
