-- ===== src/Koji/Properties.antt =====
-- The properties that the client keeps, koji_client/admin.go.
pub mod Found
use fletchling.Prelude.{pos, Bool, Option, none, some, List, String, ◌==◌, string_eq, if◌then◌else◌}
use fletchling.Prelude.Time.{Time}
use fletchling.Prelude.Map.{lookup}
use fletchling.Geo.Kinds.{Kind, string, bool, map, slice, invalid, int, uint, rest}
use fletchling.Koji.{Property, Codec, as_map_by_name, as_map_by_id}
use fletchling.Koji.Requests.{
  get, post, Request, Reply, not_encoded, no_category, CliProps, Call, ok, err, pure, fail, some_or,
  ◌>>=◌, ◌>>◌, make_internal_request, decode_response,
}

unfoldable pub category_of : Kind → String
category_of string = "string"
category_of bool = "boolean"
category_of map = "object"
category_of slice = "array"
category_of invalid = ""
category_of int = ""
category_of uint = ""
category_of rest = ""
category_of _ = "number"

module _ {Geometry B W : Type 0} (codec : Codec Geometry B)
    (serve : Request B → W → Option (Reply B) × W) where
  unfoldable pub get_all_properties : Call W (List Property)
  unfolding make_internal_request decode_response
  get_all_properties = do
    reply ← make_internal_request serve codec.of_login get "/property/all/" none
    decode_response codec.to_properties reply

  abbrev pub cli_props : List Property → CliProps
  cli_props properties = record {
    list = properties;
    by_name = as_map_by_name properties;
    by_id = as_map_by_id properties;
  }

  abbrev pub keep_props : CliProps → Call W CliProps
  keep_props props s = ok props (record s { props = some props })

  unfoldable pub refresh_properties_from_koji : Call W CliProps
  unfolding get_all_properties
  refresh_properties_from_koji = do
    properties ← get_all_properties
    keep_props (cli_props properties)

  unfoldable pub get_properties : Call W CliProps
  unfolding refresh_properties_from_koji
  get_properties s = elim s.props [
    | none ↦ refresh_properties_from_koji s
    | some props ↦ ok props s
  ]

  unfoldable pub get_property_by_name : String → Call W (Option Property)
  unfolding get_properties lookup
  get_property_by_name name = do props ← get_properties; pure (lookup name props.by_name)

  module _ (now : Time) where
    abbrev now_if_none : Option Time → Option Time
    now_if_none none = some now
    now_if_none (some t) = some t

    unfoldable pub create_property : Property → Call W Property
    unfolding make_internal_request decode_response
    create_property property = do
      body ← some_or not_encoded (
          codec.of_property (record property {
            created_at = now_if_none property.created_at;
            updated_at = now_if_none property.updated_at;
          }))
      reply ← make_internal_request serve codec.of_login post "/property/" (some body)
      decode_response codec.to_property reply

    abbrev new_property : String → String → Property
    new_property name category = record {
      name = name;
      category = category;
      property_id = pos 0;
      created_at = none;
      updated_at = none;
    }

    -- Whether the list can be read again does not matter.
    abbrev refreshed : Property → Call W Property
    unfolding refresh_properties_from_koji
    refreshed property s = elim (refresh_properties_from_koji s) [
      | ok _ s' ↦ ok property s'
      | err _ s' ↦ ok property s'
    ]

    unfoldable pub created : String → String → Call W Property
    unfolding create_property refreshed
    created name category =
        if category == ""
        then fail no_category
        else do property ← create_property (new_property name category); refreshed property

    abbrev found_or_created : String → Kind → Option Property → Call W Property
    unfolding created category_of
    found_or_created name kind none = created name (category_of kind)
    found_or_created name kind (some property) = pure property

    unfoldable pub get_or_create_property : String → Kind → Call W Property
    unfolding get_property_by_name found_or_created
    get_or_create_property name kind = do
      found ← get_property_by_name name
      found_or_created name kind found
