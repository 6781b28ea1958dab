-- ===== src/Processor/Update/Detected.antt =====
-- Since when a pokemon nests, over many rounds of ProcessStatsCollection in processor/processor.go.
use fletchling.Prelude.{
  ◌≡◌, true, false, Option, none, some, List, [], ◌∷◌, ltb_ℤ, String, All, arith, ◌⊎◌, Bool-cases,
  inl, inr,
}
use fletchling.Prelude.Float.{Floats}
use fletchling.Prelude.Time.{Time}
use fletchling.Models.{PokemonKey, key_eq, eqb_key_iff}
use fletchling.Models.Nest.{
  NestingPokemonInfo, Nest, keep_detected_at, set_nesting_pokemon, set_updated_at,
}
use fletchling.Processor.Config.{Config, min_history_duration}
use fletchling.Processor.Update.{process_nest, after_setting, still_nesting}
use fletchling.Processor.Update.Changes.{Round, process_rounds}

module _ (F : Floats) {Geometry : Type 0} (json : Geometry → String) (cfg : Config F)
    (k : PokemonKey) (since : Option Time) where
  -- The pokemon nests, and did so since then.
  abbrev NestsSince : Option (NestingPokemonInfo F) → Type 0
  NestsSince none = ⊥
  NestsSince (some ni) = (ni.pokemon_key ≡ k) × (ni.detected_at ≡ since)

  abbrev pub IsNesting : Nest F Geometry → Type 0
  IsNesting nest = NestsSince nest.stats_info.nesting_pokemon

  -- A round that has too little history, or finds the pokemon again.
  abbrev pub Again : Round F → Type 0
  Again r =
      (ltb_ℤ r.duration (min_history_duration cfg) ≡ true)
      ⊎ ((ni : NestingPokemonInfo F) × (r.found ≡ some ni) × (ni.pokemon_key ≡ k))

  keep_detected_at-NestsSince :
      (old : Option (NestingPokemonInfo F)) (ni : NestingPokemonInfo F)
      → NestsSince old
      → ni.pokemon_key ≡ k
      → NestsSince (some (keep_detected_at F old ni))
  keep_detected_at-NestsSince none ni h same = absurd h
  keep_detected_at-NestsSince (some old) ni h same =
      ground (arith, h, same, eqb_key_iff old.pokemon_key ni.pokemon_key)

  -- What nests after a round with enough history.
  nesting_after :
      (r : Round F) (nest : Nest F Geometry) (ni : NestingPokemonInfo F)
      → ltb_ℤ r.duration (min_history_duration cfg) ≡ false
      → r.found ≡ some ni
      → (process_nest F json cfg r.now r.db_ok r.duration r.found nest).0.stats_info.nesting_pokemon
        ≡ some (keep_detected_at F nest.stats_info.nesting_pokemon ni)
  unfolding process_nest after_setting still_nesting set_nesting_pokemon set_updated_at
  nesting_after r nest ni h found = ground (arith, h, found)

  process_nest-IsNesting :
      (r : Round F) (nest : Nest F Geometry)
      → Again r
      → IsNesting nest
      → IsNesting (process_nest F json cfg r.now r.db_ok r.duration r.found nest).0
  unfolding process_nest
  process_nest-IsNesting r nest (inl short) h = rw (short, process_nest) h
  process_nest-IsNesting r nest (inr (ni, found, same)) h =
      elim (Bool-cases (ltb_ℤ r.duration (min_history_duration cfg))) [
        | inl short ↦ rw (short, process_nest) h
        | inr long ↦
            rw (nesting_after r nest ni long found)
              (keep_detected_at-NestsSince nest.stats_info.nesting_pokemon ni h same)
      ]

  -- If a pokemon nests since some time, and each round of ProcessStatsCollection has too little
  -- history or finds it again, then after all the rounds it still nests, since the same time.
  pub process_rounds-IsNesting :
      (rs : List (Round F)) (nest : Nest F Geometry)
      → All Again rs
      → IsNesting nest
      → IsNesting (process_rounds F json cfg rs nest).0
  unfolding process_rounds
  process_rounds-IsNesting [] nest again h = h
  process_rounds-IsNesting (r ∷ rs) nest (a, again) h =
      process_rounds-IsNesting rs _ again (process_nest-IsNesting r nest a h)
