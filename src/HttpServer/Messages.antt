-- ===== src/HttpServer/Messages.antt =====
-- The webhooks that Golbat sends, in httpserver/webhooks.go, and the refresh and the reload of
-- httpserver/api_config.go.
use mathlib.Core.Bool.{◌&&◌, ◌||◌}
use fletchling.Prelude.{
  ℕ, ◌+◌, ◌-◌, ◌*◌, ◌^◌, ◌%◌, ℤ, pos, Bool, true, false, Option, none, some, List, [], ◌∷◌, String,
  string_eq, if◌then◌else◌, ◌==◌, leb, ltb_ℤ,
}
use fletchling.Prelude.Float.{Floats}
use fletchling.Prelude.Word.{u64_mod}
use fletchling.Geo.{codes, below, parse_int}
use fletchling.Filters.Config.{FiltersConfig}
use fletchling.Filters.{RefreshNestConfig}
use fletchling.HttpServer.{Response, status_ok, internal_error}

-- The fields of a PokemonWebhook that are read.
pub record PokemonWebhook (F : Floats) : Type 0 where
  pub spawnpoint_id : String
  pub pokemon_id : ℤ
  pub latitude : F.Float
  pub longitude : F.Float
  pub form : Option ℤ
  pub individual_attack : Option ℤ

pub record WebhookMessage (F : Floats) : Type 0 where
  pub type : String
  pub pokemon : Option (PokemonWebhook F)

-- What the processor is given.
pub record Pokemon (F : Floats) : Type 0 where
  pub pokemon_id : ℤ
  pub form_id : ℤ
  pub spawnpoint_id : ℕ
  pub lat : F.Float
  pub lon : F.Float

-- The value of a digit of base 16.
abbrev pub hex_digit : ℕ → Option ℕ
hex_digit c =
    if leb b'0' c && leb c b'9'
    then some (c - b'0')
    else if leb b'a' c && leb c b'f'
    then some (c - b'a' + 10)
    else if leb b'A' c && leb c b'F'
    then some (c - b'A' + 10)
    else none

unfoldable pub parse_hex_digits : List ℕ → ℕ → Option ℕ
parse_hex_digits [] n = some n
parse_hex_digits (c ∷ cs) n = elim (hex_digit c) [
  | none ↦ none
  | some d ↦ parse_hex_digits cs (n * 16 + d)
]

-- strconv.ParseUint of base 16 and 64 bits.
unfoldable pub spawnpoint_id_as_int : String → Option ℕ
unfolding parse_hex_digits
spawnpoint_id_as_int s = elim (codes s) [
  | [] ↦ none
  | c ∷ cs ↦ below u64_mod (parse_hex_digits (c ∷ cs) 0)
]

-- A lured pokemon has no spawnpoint, and is matched by its place.
abbrev pub spawnpoint_or_none : String → Option ℕ → Option ℕ
spawnpoint_or_none s (some id) = some id
spawnpoint_or_none s none = if s == "None" || s == "" then some 0 else none

abbrev pub is_encounter : Option ℤ → Bool
is_encounter none = false
is_encounter (some attack) = true

abbrev pub form_or_zero : Option ℤ → ℤ
form_or_zero none = pos 0
form_or_zero (some form) = form

module _ {F : Floats} where
  -- The pokemon of a message, unless the message is ignored.
  unfoldable pub pokemon_of : PokemonWebhook F → Option (Pokemon F)
  unfolding spawnpoint_id_as_int
  pokemon_of hook =
      if ltb_ℤ (pos 0) hook.pokemon_id
      then elim (spawnpoint_or_none hook.spawnpoint_id (spawnpoint_id_as_int hook.spawnpoint_id)) [
        | none ↦ none
        | some id ↦
            if is_encounter hook.individual_attack
            then some (record {
              pokemon_id = hook.pokemon_id;
              form_id = form_or_zero hook.form;
              spawnpoint_id = id;
              lat = hook.latitude;
              lon = hook.longitude;
            })
            else none
      ]
      else none

  abbrev pub pokemon_of_message : Option (PokemonWebhook F) → Option (Pokemon F)
  unfolding pokemon_of
  pokemon_of_message none = none
  pokemon_of_message (some hook) = pokemon_of hook

  -- `process` is ProcessPokemon on the state of the manager. The number is what the metrics are told.
  module _ {State : Type 0} (process : Pokemon F → State → State) where
    abbrev pub process_one : Option (Pokemon F) → State × ℕ → State × ℕ
    process_one none (state, num_processed) = (state, num_processed)
    process_one (some pokemon) (state, num_processed) =
        (process pokemon state, (num_processed + 1) % u64_mod)

    unfoldable pub process_messages : List (WebhookMessage F) → State × ℕ → State × ℕ
    unfolding pokemon_of
    process_messages [] r = r
    process_messages (msg ∷ msgs) r =
        process_messages msgs (process_one (pokemon_of_message msg.pokemon) r)

  -- A webhook that does not decode is answered like any other.
  unfoldable pub handle_webhook :
      {State : Type 0}
      → (Pokemon F → State → State)
      → Option (List (WebhookMessage F))
      → State
      → State × ℕ
  unfolding process_messages
  handle_webhook process none state = (state, 0)
  handle_webhook process (some msgs) state = process_messages process msgs (state, 0)

-- strconv.ParseInt of 32 bits, and only what is positive.
abbrev pub positive_32 : Option ℤ → Option ℤ
positive_32 none = none
positive_32 (some n) = if ltb_ℤ (pos 0) n && ltb_ℤ n (pos (2 ^ 31)) then some n else none

abbrev pub or_configured : ℤ → Option ℤ → ℤ
or_configured configured none = configured
or_configured configured (some n) = n

unfoldable pub refresh_config : (F : Floats) → FiltersConfig F → String → Bool → RefreshNestConfig F
unfolding parse_int
refresh_config F filters concurrency all_spawnpoints = record {
  filters = filters;
  concurrency =
      if concurrency == ""
      then filters.concurrency
      else or_configured filters.concurrency (positive_32 (parse_int concurrency));
  force_spawnpoints_refresh = all_spawnpoints;
}

-- The refresh, if one is asked for, and then the reload; `refresh` and `reload` tell whether they
-- fail. The steps that were taken are listed.
pub data ReloadStep (F : Floats) : Type 0 where
  refreshed : RefreshNestConfig F → ReloadStep F
  reloaded : ReloadStep F

module _ (F : Floats) (refresh : RefreshNestConfig F → Bool) (reload : Bool) where
  abbrev pub do_reload : List (ReloadStep F) → List (ReloadStep F) × Response String
  do_reload steps =
      if reload
      then (steps, internal_error "an internal error occurred: check the logs")
      else (reloaded ∷ steps, status_ok "config has been reloaded")

  unfoldable pub handle_reload :
      FiltersConfig F → String → String → String → List (ReloadStep F) × Response String
  unfolding refresh_config
  handle_reload filters spawnpoints refresh_param concurrency =
      let all_spawnpoints = spawnpoints == "all" in
      let config = refresh_config F filters concurrency all_spawnpoints in
      if all_spawnpoints || refresh_param == "1"
      then if refresh config
        then ([], internal_error "an internal error occurred: check the logs")
        else do_reload (refreshed config ∷ [])
      else do_reload []
