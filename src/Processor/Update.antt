-- ===== src/Processor/Update.antt =====
-- What becomes of one nest in ProcessStatsCollection of processor/processor.go, once its summary is
-- processed. Webhooks and database updates are listed in the order in which they are made; `db_ok`
-- says of each update whether the database takes it. `now` is the one reading of the clock that a
-- run over all nests makes.
pub mod Changes
pub mod Detected
pub mod Unset
use fletchling.Prelude.{
  ℕ, ℤ, Bool, true, false, not, Option, none, some, List, [], ◌∷◌, if◌then◌else◌, ltb_ℤ, String,
  ◌==◌,
}
use fletchling.Prelude.Float.{Floats}
use fletchling.Prelude.Time.{Time, Duration, after_add}
use fletchling.Models.{PokemonKey, key_eq}
use fletchling.Models.Nest.{
  NestingPokemonInfo, NestStatsInfo, Nest, keep_detected_at, set_nesting_pokemon, set_updated_at,
  as_store_partial_update_pokemon,
}
use fletchling.DbStore.{NestPartialUpdate}
use fletchling.Processor.Config.{Config, min_history_duration, no_nesting_pokemon_age}

pub data Effect (F : Floats) : Type 0 where
  add_nest_webhook : ℤ → NestingPokemonInfo F → Effect F
  update_nest_partial : ℤ → NestPartialUpdate F → Effect F

module _ (F : Floats) {Geometry : Type 0} (json : Geometry → String) where
  abbrev with_stats_info : Nest F Geometry → NestStatsInfo F → Nest F Geometry
  with_stats_info nest si = record nest { stats_info = si }

  -- A nest starts or changes, but does not end, with a webhook.
  abbrev pub webhook :
      ℤ → Option (NestingPokemonInfo F) → NestingPokemonInfo F → List (Effect F) → List (Effect F)
  webhook id none ni effects = add_nest_webhook id ni ∷ effects
  webhook id (some old) ni effects =
      if old.pokemon_key == ni.pokemon_key then effects else add_nest_webhook id ni ∷ effects

  -- No pokemon nests. Whether the database took the update makes no difference.
  unfoldable pub no_nesting :
      Config F → Time → Nest F Geometry → Option Time → Nest F Geometry × List (Effect F)
  no_nesting cfg now nest db_updated_at =
      if after_add now db_updated_at (no_nesting_pokemon_age cfg) then (nest, []) else (
        with_stats_info nest (set_updated_at F (some now) nest.stats_info).0,
        update_nest_partial nest.id (as_store_partial_update_pokemon F json (some now) nest) ∷ [],
      )

  unfoldable pub still_nesting :
      Time
      → (NestPartialUpdate F → Bool)
      → Nest F Geometry
      → Option (NestingPokemonInfo F)
      → NestingPokemonInfo F
      → Nest F Geometry × List (Effect F)
  still_nesting now db_ok nest old ni =
      let update = as_store_partial_update_pokemon F json (some now) nest in
      (
        (if db_ok update
            then with_stats_info nest (set_updated_at F (some now) nest.stats_info).0
            else nest),
        webhook nest.id old ni (update_nest_partial nest.id update ∷ []),
      )

  -- The rest of the round, after the new nesting pokemon was set.
  unfoldable pub after_setting :
      Config F
      → Time
      → (NestPartialUpdate F → Bool)
      → Nest F Geometry
      → Option (NestingPokemonInfo F)
      → Option Time
      → Option (NestingPokemonInfo F)
      → Nest F Geometry × List (Effect F)
  unfolding no_nesting still_nesting
  after_setting cfg now db_ok nest old db_updated_at none = no_nesting cfg now nest db_updated_at
  after_setting cfg now db_ok nest old db_updated_at (some ni) = still_nesting now db_ok nest old ni

  unfoldable pub process_nest :
      Config F
      → Time
      → (NestPartialUpdate F → Bool)
      → Duration
      → Option (NestingPokemonInfo F)
      → Nest F Geometry
      → Nest F Geometry × List (Effect F)
  unfolding after_setting set_nesting_pokemon
  process_nest cfg now db_ok duration ni nest =
      if ltb_ℤ duration (min_history_duration cfg)
      then (nest, [])
      else (let (si, old, db_updated_at) =
            set_nesting_pokemon F now ni (some now) nest.stats_info in
          after_setting cfg now db_ok (with_stats_info nest si) old db_updated_at
            si.nesting_pokemon)
