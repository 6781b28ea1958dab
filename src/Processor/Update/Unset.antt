-- ===== src/Processor/Update/Unset.antt =====
-- When ProcessStatsCollection of processor/processor.go unsets a nesting pokemon in the database.
use fletchling.Prelude.{◌≡◌, refl, true, Option, none, List, [], ◌∷◌, String, All, arith}
use fletchling.Prelude.Float.{Floats}
use fletchling.Prelude.Time.{Time, after_add}
use fletchling.Models.Nest.{Nest, set_nesting_pokemon}
use fletchling.Processor.Config.{Config, no_nesting_pokemon_age}
use fletchling.Processor.Update.{process_nest, after_setting, no_nesting}
use fletchling.Processor.Update.Changes.{Round, process_rounds}

module _ (F : Floats) {Geometry : Type 0} (json : Geometry → String) (cfg : Config F)
    (updated : Option Time) where
  -- A round with no pokemon that nests, longer than the age after the last update.
  abbrev pub IsQuiet : Round F → Type 0
  IsQuiet r = (r.found ≡ none) × (after_add r.now updated (no_nesting_pokemon_age cfg) ≡ true)

  quiet_round :
      (r : Round F) (nest : Nest F Geometry)
      → IsQuiet r
      → nest.stats_info.updated_at ≡ updated
      → ((process_nest F json cfg r.now r.db_ok r.duration r.found nest).0.stats_info.updated_at
          ≡ updated)
        × ((process_nest F json cfg r.now r.db_ok r.duration r.found nest).1 ≡ [])
  unfolding process_nest after_setting no_nesting set_nesting_pokemon
  quiet_round r nest (found, old) same =
      (ground (arith, found, old, same), ground (arith, found, old, same))

  -- If in every round no pokemon nests and the age for no nesting pokemon has passed since the
  -- update time that the nest has at the start, then no round makes a database update or a
  -- webhook, so the nesting pokemon is never unset.
  pub process_rounds_quiet :
      (rs : List (Round F)) (nest : Nest F Geometry)
      → All IsQuiet rs
      → nest.stats_info.updated_at ≡ updated
      → (process_rounds F json cfg rs nest).1 ≡ []
  unfolding process_rounds
  process_rounds_quiet [] nest quiet same = refl
  process_rounds_quiet (r ∷ rs) nest (q, quiet) same =
      let (kept, nothing) = quiet_round r nest q same in
      rw (nothing) (process_rounds_quiet rs _ quiet kept)
