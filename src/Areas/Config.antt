-- ===== src/Areas/Config.antt =====
-- Validate of areas/config.go, and NewAreasLoader of areas/loader.go with NewAPIClient of
-- koji_client/api.go. Parsing an address and opening a file are parameters.
pub mod Sources
use Prim.Native.Char.{code}
use Prim.Native.String
use fletchling.Prelude.{Bool, Option, none, some, String, eqb, ◌==◌, string_eq, if◌then◌else◌}
use fletchling.Areas.Loader.{AreasLoader}

pub record Config : Type 0 where
  pub koji_url : String
  pub koji_token : String
  pub filename : String
  pub cache_dir : String
  pub cache_filename : String
  pub koji_base_url : String
  pub koji_project : String

pub data ConfigError : Type 0 where
  both_given bad_url bad_path no_project none_given not_accessible bad_base_url : ConfigError

pub data Checked (A : Type 0) : Type 0 where
  ok : A → Checked A
  err : ConfigError → Checked A

-- An address as it is parsed, and how it prints once its path is empty.
pub record Url : Type 0 where
  pub path : String
  pub base : String

-- What follows a prefix.
unfoldable pub after_prefix : String → String → Option String
after_prefix String.[] s = some s
after_prefix (String.◌∷◌ c p) String.[] = none
after_prefix (String.◌∷◌ c p) (String.◌∷◌ d s) =
    let rest = after_prefix p s in if eqb (code c) (code d) then rest else none

abbrev pub fc_str : String
fc_str = "/api/v1/geofence/feature-collection/"

module _ (parse : String → Option Url) (opens : String → Bool) where
  abbrev with_project : Config → Url → Option String → Checked Config
  with_project cfg uri none = err bad_path
  with_project cfg uri (some project) =
      if project == ""
      then err no_project
      else ok (record cfg { koji_project = project; koji_base_url = uri.base })

  abbrev with_url : Config → Option Url → Checked Config
  unfolding after_prefix
  with_url cfg none = err bad_url
  with_url cfg (some uri) = with_project cfg uri (after_prefix fc_str uri.path)

  unfoldable pub validate : Config → Checked Config
  unfolding with_url
  validate cfg =
      if cfg.koji_url == ""
      then (if cfg.filename == ""
          then err none_given
          else if opens cfg.filename
          then ok cfg
          else err not_accessible)
      else if cfg.filename == ""
      then with_url cfg (parse cfg.koji_url)
      else err both_given

  module _ (Geometry : Type 0) where
    abbrev new_loader : String → String → AreasLoader Geometry
    new_loader koji_project filename = record {
      koji_project = koji_project;
      filename = filename;
      cache_dir = "";
      cache_filename = "";
      areas_cache = none;
    }

    abbrev with_client : Config → Option Url → Checked (AreasLoader Geometry)
    with_client cfg none = err bad_base_url
    with_client cfg (some _) = ok (new_loader cfg.koji_project "")

    abbrev of_config : Checked Config → Checked (AreasLoader Geometry)
    of_config (err e) = err e
    of_config (ok cfg) =
        if cfg.filename == ""
        then with_client cfg (parse cfg.koji_base_url)
        else ok (new_loader "" cfg.filename)

    -- The two fields of the cache stay empty, whatever is configured.
    unfoldable pub new_areas_loader : Config → Checked (AreasLoader Geometry)
    unfolding validate
    new_areas_loader cfg = of_config (validate cfg)
