-- ===== src/Areas/Loader/Examples.antt =====
-- A loader of two areas of one name from Koji.
use fletchling.Prelude.{
  ℕ, ◌≡◌, refl, Bool, true, false, Option, none, some, List, [], ◌∷◌, String, Outcome, done,
  if◌then◌else◌,
}
use fletchling.Prelude.Float.{fractions}
use fletchling.Geo.{Feature, text}
use fletchling.Geo.Files.{Point, GeofencesFileEntry}
use fletchling.Areas.Loader.{
  AreasLoader, set_areas, World, State, LoaderError, reload_areas, get_areas_cache,
}
use fletchling.Areas.Loader.Served.{last_area, IsServed, Reach, started, reloaded, asked}
use fletchling.Areas.Loader.Started.{new_areas_loader-IsServed}
use fletchling.Areas.Config.{Config, Url, ok, new_areas_loader}
use fletchling.Areas.Config.Sources.{OneSource}

abbrev Rings : Type 0
Rings = List (Point fractions)

abbrev area : String → Feature Rings
area kind = record {
  properties = ("name", text "London") ∷ ("kind", text kind) ∷ [];
  geometry = [];
}

abbrev areas : List (Feature Rings)
areas = area "old" ∷ area "new" ∷ []

the_last_one : last_area "London" areas ≡ some (area "new")
unfolding last_area
the_last_one = refl

abbrev cfg : Config
cfg = record {
  koji_url = "http://koji/api/v1/geofence/feature-collection/areas";
  koji_token = "secret";
  filename = "";
  cache_dir = "./.cache";
  cache_filename = "areas-cache.json";
  koji_base_url = "";
  koji_project = "";
}

abbrev parse : String → Option Url
parse _ = some (record { path = "/api/v1/geofence/feature-collection/areas"; base = "http://koji" })

abbrev loader : AreasLoader Rings
loader = record {
  koji_project = "areas";
  filename = "";
  cache_dir = "";
  cache_filename = "";
  areas_cache = none;
}

loader_is_made : new_areas_loader parse (λ _. false) Rings cfg ≡ ok loader
unfolding new_areas_loader
loader_is_made = refl

abbrev no_collection : List ℕ → Option (Option (List (Feature Rings)))
no_collection contents = none

abbrev no_geofences : List ℕ → Option (List (GeofencesFileEntry fractions))
no_geofences contents = none

abbrev world : Bool → World fractions no_collection no_geofences
world up = record {
  get_feature_collection = λ _. if up then some areas else none;
  contents = λ _. none;
  faults = record { creating = false; encoding = false; removing = false; renaming = false };
}

abbrev at_start : State fractions no_collection no_geofences
at_start = (loader, record { cached = none; leftovers = 0 })

abbrev at_end : State fractions no_collection no_geofences
at_end = (
  record loader { areas_cache = some (set_areas areas) },
  record { cached = none; leftovers = 0 },
)

abbrev Loading : Type 0
Loading = State fractions no_collection no_geofences

-- Koji cannot be reached, then areas are asked for, and then it cannot be reached again.
first_fails :
    (e : Option LoaderError) × ◌≡◌ {A = Outcome (Option LoaderError × Loading)}
      (reload_areas fractions no_collection no_geofences (world false) at_start)
      (done (e, at_start))
unfolding reload_areas
first_fails = (_, refl)

then_asked :
    get_areas_cache fractions no_collection no_geofences (world true) at_start ≡ done at_end
unfolding get_areas_cache reload_areas
then_asked = refl

last_fails :
    (e : Option LoaderError) × ◌≡◌ {A = Outcome (Option LoaderError × Loading)}
      (reload_areas fractions no_collection no_geofences (world false) at_end)
      (done (e, at_end))
unfolding reload_areas
last_fails = (_, refl)

abbrev down_up_down : List (World fractions no_collection no_geofences)
down_up_down = world false ∷ world true ∷ world false ∷ []

abbrev way : Reach fractions no_collection no_geofences at_start down_up_down at_end
way =
    reloaded (world true ∷ world false ∷ []) at_end at_end (world false) last_fails.0
      (asked (world false ∷ []) at_start at_end (world true)
        (reloaded [] at_start at_start (world false) first_fails.0 started first_fails.1)
        then_asked)
      last_fails.1

new_areas_loader-IsServed_example :
    OneSource parse (λ _. false) Rings cfg loader
    × IsServed fractions no_collection no_geofences down_up_down at_start at_end
new_areas_loader-IsServed_example =
    new_areas_loader-IsServed fractions no_collection no_geofences parse (λ _. false) cfg loader
      (record { cached = none; leftovers = 0 }) at_end down_up_down loader_is_made way
