-- ===== src/Processor/Update/Changes.antt =====
-- The webhooks of one nest over many rounds of ProcessStatsCollection in processor/processor.go.
use fletchling.Prelude.{
  ◌≡◌, refl, sym, ap, Bool, true, false, Option, none, some, List, [], ◌∷◌, ◌++◌, if◌then◌else◌,
  ltb_ℤ, String, ◌==◌, Bool-cases, inl, inr, arith,
}
use fletchling.Prelude.Float.{Floats}
use fletchling.Prelude.Time.{Time, Duration}
use fletchling.Models.{PokemonKey, key_eq}
use fletchling.Models.Nest.{NestingPokemonInfo, Nest, set_nesting_pokemon, set_updated_at}
use fletchling.DbStore.{NestPartialUpdate}
use fletchling.Processor.Config.{Config, min_history_duration}
use fletchling.Processor.Update.{
  Effect, add_nest_webhook, update_nest_partial, no_nesting, still_nesting, after_setting,
  process_nest,
}

-- One round: when it is, what the database does, how long the statistics are, and what they say.
pub record Round (F : Floats) : Type 0 where
  pub now : Time
  pub db_ok : NestPartialUpdate F → Bool
  pub duration : Duration
  pub found : Option (NestingPokemonInfo F)

module _ (F : Floats) {Geometry : Type 0} (json : Geometry → String) (cfg : Config F) where
  -- Rounds one after the other, and all effects in order.
  unfoldable pub process_rounds :
      List (Round F) → Nest F Geometry → Nest F Geometry × List (Effect F)
  process_rounds [] nest = (nest, [])
  process_rounds (r ∷ rs) nest =
      let (nest', effects) = process_nest F json cfg r.now r.db_ok r.duration r.found nest in
      let (last, more) = process_rounds rs nest' in (last, effects ++ more)

  abbrev key_of : Option (NestingPokemonInfo F) → Option PokemonKey
  key_of none = none
  key_of (some ni) = some ni.pokemon_key

  abbrev pub nesting_key : Nest F Geometry → Option PokemonKey
  nesting_key nest = key_of nest.stats_info.nesting_pokemon

  -- The pokemon that webhooks tell of.
  abbrev pub announced : List (Effect F) → List PokemonKey
  announced [] = []
  announced (add_nest_webhook id ni ∷ effects) = ni.pokemon_key ∷ announced effects
  announced (update_nest_partial id update ∷ effects) = announced effects

  abbrev is_known : Option PokemonKey → PokemonKey → Bool
  is_known none k = false
  is_known (some j) k = j == k

  -- What should be told: each pokemon that nests now and did not after the round before. Rounds with
  -- too little history do not count.
  abbrev pub starts : Option PokemonKey → List (Option PokemonKey) → List PokemonKey
  starts before [] = []
  starts before (none ∷ ks) = starts none ks
  starts before (some k ∷ ks) =
      if is_known before k then starts (some k) ks else k ∷ starts (some k) ks

  abbrev pub counted : List (Round F) → List (Option PokemonKey)
  counted [] = []
  counted (r ∷ rs) =
      if ltb_ℤ r.duration (min_history_duration cfg)
      then counted rs
      else key_of r.found ∷ counted rs

  announced-append : (xs ys : List (Effect F)) → announced (xs ++ ys) ≡ announced xs ++ announced ys
  announced-append [] ys = refl
  announced-append (add_nest_webhook id ni ∷ xs) ys =
      ap (◌∷◌ ni.pokemon_key) (announced-append xs ys)
  announced-append (update_nest_partial id update ∷ xs) ys = announced-append xs ys

  module _ (r : Round F) (nest : Nest F Geometry) where
    abbrev one : Nest F Geometry × List (Effect F)
    one = process_nest F json cfg r.now r.db_ok r.duration r.found nest

    round_short : ltb_ℤ r.duration (min_history_duration cfg) ≡ true → one ≡ (nest, [])
    unfolding process_nest
    round_short h = rw h refl

    round_key :
        ltb_ℤ r.duration (min_history_duration cfg) ≡ false
        → (found : Option (NestingPokemonInfo F)) → r.found ≡ found
        → nesting_key one.0 ≡ key_of found
    unfolding process_nest after_setting no_nesting still_nesting set_nesting_pokemon set_updated_at
    round_key h none e = ground (arith, h, e)
    round_key h (some ni) e = ground (arith, h, e)

    round_announced :
        ltb_ℤ r.duration (min_history_duration cfg) ≡ false
        → (found : Option (NestingPokemonInfo F)) → r.found ≡ found
        → announced one.1 ≡ starts (nesting_key nest) (key_of found ∷ [])
    unfolding process_nest after_setting no_nesting still_nesting set_nesting_pokemon
    round_announced h none e = ground (arith, h, e)
    round_announced h (some ni) e = ground (arith, h, e)

  starts-cons :
      (before k : Option PokemonKey) (ks : List (Option PokemonKey))
      → starts before (k ∷ ks) ≡ starts before (k ∷ []) ++ starts k ks
  starts-cons before none ks = refl
  starts-cons before (some k) ks = elim (Bool-cases (is_known before k)) [
    | inl known ↦ rw known refl
    | inr new ↦ rw new refl
  ]

  -- Over any rounds of ProcessStatsCollection on one nest, whatever the database answers, the
  -- webhooks that are added tell of exactly those pokemon that nest in a round with enough
  -- history and did not nest after the round with enough history before it, in order, the first
  -- compared with what the nest had at the start.
  pub announced-process_rounds :
      (rs : List (Round F)) (nest : Nest F Geometry)
      → announced (process_rounds rs nest).1 ≡ starts (nesting_key nest) (counted rs)
  unfolding process_rounds
  announced-process_rounds [] nest = refl
  announced-process_rounds (r ∷ rs) nest =
      let next = process_nest F json cfg r.now r.db_ok r.duration r.found nest in
      let rest = announced-process_rounds rs next.0 in
      elim (Bool-cases (ltb_ℤ r.duration (min_history_duration cfg))) [
        | inl short ↦ rw (short, round_short r nest short) (announced-process_rounds rs nest)
        | inr long ↦
            rw
              (
                long,
                announced-append next.1 (process_rounds rs next.0).1,
                rest,
                round_announced r nest long r.found refl,
                round_key r nest long r.found refl,
              )
              (sym (starts-cons (nesting_key nest) (key_of r.found) (counted rs)))
      ]
