-- ===== src/Processor/Nesting/First.antt =====
-- Which pokemon processTimePeriodSummary of processor/processor.go picks.
use fletchling.Prelude.{
  ℕ, zero, suc, ◌≡◌, refl, ◌≤◌, Bool, true, false, Option, none, some, List, [], ◌∷◌, take,
  if◌then◌else◌, Bool-cases, inl, inr, arith, ◌≤ℤ◌,
}
use fletchling.Prelude.Float.{Floats}
use fletchling.Prelude.Word.{u64_of_ℤ}
use fletchling.Models.Summary.{
  NestPokemonCountAndTotal, NestTimePeriodSummary, nest_pct, global_pct,
}
use fletchling.Models.Nest.{NestingPokemonInfo}
use fletchling.Processor.Config.{Config, min_history_duration}
use fletchling.Processor.Nesting.{
  Verdict, nesting, not_nesting, is_unexpected, spawns_too_much, nest_pct_to_global_pct,
  nesting_info, compute_nesting, summary_loop, process_time_period_summary,
}

module _ (F : Floats) where
  open F use {lt}

  -- Every threshold of the configuration is met.
  pub record Meets (cfg : Config F) (summary : NestTimePeriodSummary) (p : NestPokemonCountAndTotal)
      : Type 0 where
    pub pct : lt (nest_pct F p) cfg.min_nest_pokemon_pct ≡ false
    pub above_global : lt (nest_pct F p) (global_pct F p) ≡ false
    pub ratio : lt (nest_pct_to_global_pct F p) cfg.min_nest_pct_to_global_pct_ratio ≡ false
    pub global : spawns_too_much F cfg p ≡ false
    pub in_total : u64_of_ℤ cfg.min_total_pokemon ≤ p.total
    pub of_pokemon : u64_of_ℤ cfg.min_nest_pokemon ≤ p.count
    pub history : min_history_duration cfg ≤ℤ summary.duration

  module _ (cfg : Config F) (summary : NestTimePeriodSummary) where
    abbrev is_nesting : Verdict F → Bool
    is_nesting (not_nesting why) = false
    is_nesting (nesting ni) = true

    -- What a pokemon is by itself, whatever was found before it.
    unfoldable pub qualifies : NestPokemonCountAndTotal → Bool
    qualifies p =
        if is_unexpected p then false else is_nesting (compute_nesting F cfg summary p false)

    found_stays :
        (left : ℕ) (ni : NestingPokemonInfo F) (ps : List NestPokemonCountAndTotal)
        → summary_loop F cfg summary left (some ni) ps ≡ some ni
    unfolding summary_loop compute_nesting
    found_stays left ni [] = refl
    found_stays zero ni (p ∷ ps) = refl
    found_stays (suc left) ni (p ∷ ps) = ground (arith, found_stays left ni ps)

    -- The counts are as they should be, and every threshold is met.
    abbrev pub IsCandidate : NestPokemonCountAndTotal → Type 0
    IsCandidate p = (is_unexpected p ≡ false) × Meets cfg summary p

    qualifies-IsCandidate : (p : NestPokemonCountAndTotal) → qualifies p ≡ true → IsCandidate p
    unfolding qualifies compute_nesting
    qualifies-IsCandidate p h = (
      ground (arith, h),
      record {
        pct = ground (arith, h);
        above_global = ground (arith, h);
        ratio = ground (arith, h);
        global = ground (arith, h);
        in_total = ground (arith, h);
        of_pokemon = ground (arith, h);
        history = ground (arith, h);
      },
    )

    candidate_qualifies : (p : NestPokemonCountAndTotal) → IsCandidate p → qualifies p ≡ true
    unfolding qualifies compute_nesting
    candidate_qualifies p (expected, m) = ground (
      arith, expected, m.pct, m.above_global, m.ratio, m.global, m.in_total, m.of_pokemon,
      m.history,
    )

    -- The first candidate of a list, if there is one.
    pub data Picked : List NestPokemonCountAndTotal → Option (NestingPokemonInfo F) → Type 0 where
      nobody : Picked [] none
      first :
          (p : NestPokemonCountAndTotal) (ps : List NestPokemonCountAndTotal)
          → IsCandidate p
          → Picked (p ∷ ps) (some (nesting_info F summary p))
      later :
          (p : NestPokemonCountAndTotal) (ps : List NestPokemonCountAndTotal)
          (r : Option (NestingPokemonInfo F))
          → ¬ IsCandidate p
          → Picked ps r
          → Picked (p ∷ ps) r

    -- One round of the loop.
    summary_loop-cons :
        (left : ℕ) (p : NestPokemonCountAndTotal) (ps : List NestPokemonCountAndTotal)
        → summary_loop F cfg summary (suc left) none (p ∷ ps) ≡ (
            if qualifies p
            then some (nesting_info F summary p)
            else summary_loop F cfg summary left none ps)
    unfolding summary_loop qualifies compute_nesting
    summary_loop-cons left p ps = ground (arith, found_stays left (nesting_info F summary p) ps)

    summary_loop-Picked :
        (left : ℕ) (ps : List NestPokemonCountAndTotal)
        → Picked (take left ps) (summary_loop F cfg summary left none ps)
    unfolding summary_loop
    summary_loop-Picked zero [] = nobody
    summary_loop-Picked (suc left) [] = nobody
    summary_loop-Picked zero (p ∷ ps) = nobody
    summary_loop-Picked (suc left) (p ∷ ps) = elim (Bool-cases (qualifies p)) [
      | inl met ↦
          rw (summary_loop-cons left p ps, met)
            (first p (take left ps) (qualifies-IsCandidate p met))
      | inr unmet ↦
          rw (summary_loop-cons left p ps, unmet)
            (later p (take left ps) _ (λ c. absurd (cc (unmet, candidate_qualifies p c)))
              (summary_loop-Picked left ps))
    ]

    -- processTimePeriodSummary returns the nesting info of the first of the first ten pokemon of
    -- the summary whose four counts are positive and which meets every threshold of the
    -- configuration, and nothing if there is no such pokemon.
    pub process_time_period_summary-Picked :
        Picked
          (take 10 summary.pokemon_counts_and_totals)
          (process_time_period_summary F cfg summary)
    unfolding process_time_period_summary
    process_time_period_summary-Picked = summary_loop-Picked 10 summary.pokemon_counts_and_totals
