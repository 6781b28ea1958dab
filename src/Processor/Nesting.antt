-- ===== src/Processor/Nesting.antt =====
-- Which pokemon nests, in logPokemonAndComputeNesting and processTimePeriodSummary of
-- processor/processor.go. The logged texts are left out, but for the reason that stands in them.
pub mod First
use mathlib.Core.Bool.{◌&&◌, ◌||◌}
use fletchling.Prelude.{
  ℕ, zero, suc, ℤ, Bool, true, false, Option, none, some, List, [], ◌∷◌, if◌then◌else◌, eqb, ltb,
  ltb_ℤ,
}
use fletchling.Prelude.Float.{Floats}
use fletchling.Prelude.Time.{Time, Duration, hour, minute, quot}
use fletchling.Prelude.Word.{u64_of_ℤ}
use fletchling.Models.Summary.{
  NestPokemonCountAndTotal, NestTimePeriodSummary, nest_pct, global_pct,
}
use fletchling.Models.Nest.{NestingPokemonInfo}
use fletchling.Processor.Config.{Config, min_history_duration}

pub data Reason : Type 0 where
  only_log pct_too_small below_global ratio_too_small global_too_high few_in_total few_of_pokemon
        short_history :
      Reason

pub data Verdict (F : Floats) : Type 0 where
  not_nesting : Reason → Verdict F
  nesting : NestingPokemonInfo F → Verdict F

-- One of the four counts is 0.
abbrev pub is_unexpected : NestPokemonCountAndTotal → Bool
is_unexpected p = (eqb p.global_total 0 || eqb p.global 0) || (eqb p.total 0 || eqb p.count 0)

module _ (F : Floats) where
  open F use {Float, of_ℕ, of_ℤ, mul, div, lt, eq}

  -- Of a pokemon that does not spawn in the world at all it stays 0.
  unfoldable pub nest_pct_to_global_pct : NestPokemonCountAndTotal → Float
  unfolding nest_pct global_pct
  nest_pct_to_global_pct p =
      if eq (global_pct F p) (of_ℕ 0) then of_ℕ 0 else div (nest_pct F p) (global_pct F p)

  abbrev pub spawns_too_much : Config F → NestPokemonCountAndTotal → Bool
  spawns_too_much cfg p =
      lt (of_ℕ 0) cfg.max_global_spawn_pct && lt cfg.max_global_spawn_pct (global_pct F p)

  unfoldable pub nesting_info :
      NestTimePeriodSummary → NestPokemonCountAndTotal → NestingPokemonInfo F
  nesting_info summary p =
      let hours = div (of_ℤ summary.duration) (of_ℕ hour) in
      record {
        pokemon_key = p.pokemon_key;
        stats_duration_minutes = u64_of_ℤ (quot summary.duration minute);
        nest_count = p.count;
        nest_total = p.total;
        nest_hourly_count = div (of_ℕ p.count) hours;
        nest_hourly_total = div (of_ℕ p.total) hours;
        global_count = p.global;
        global_total = p.global_total;
        global_hourly_count = div (of_ℕ p.global) hours;
        global_hourly_total = div (of_ℕ p.global_total) hours;
        detected_at = summary.end_time;
        updated_at = summary.end_time;
      }

  -- A negative number in the configuration is a huge uint64.
  unfoldable pub compute_nesting :
      Config F → NestTimePeriodSummary → NestPokemonCountAndTotal → Bool → Verdict F
  unfolding nest_pct_to_global_pct nesting_info
  compute_nesting cfg summary p just_log =
      if just_log
      then not_nesting only_log
      else if lt (nest_pct F p) cfg.min_nest_pokemon_pct
      then not_nesting pct_too_small
      else if lt (nest_pct F p) (global_pct F p)
      then not_nesting below_global
      else if lt (nest_pct_to_global_pct p) cfg.min_nest_pct_to_global_pct_ratio
      then not_nesting ratio_too_small
      else if spawns_too_much cfg p
      then not_nesting global_too_high
      else if ltb p.total (u64_of_ℤ cfg.min_total_pokemon)
      then not_nesting few_in_total
      else if ltb p.count (u64_of_ℤ cfg.min_nest_pokemon)
      then not_nesting few_of_pokemon
      else if ltb_ℤ summary.duration (min_history_duration cfg)
      then not_nesting short_history
      else nesting (nesting_info summary p)

  abbrev is_some : Option (NestingPokemonInfo F) → Bool
  is_some none = false
  is_some (some ni) = true

  abbrev or_before : Option (NestingPokemonInfo F) → Verdict F → Option (NestingPokemonInfo F)
  or_before before (not_nesting why) = before
  or_before before (nesting ni) = some ni

  -- The loop, which looks at `left` more pokemon, with what was found so far.
  unfoldable pub summary_loop :
      Config F
      → NestTimePeriodSummary
      → ℕ
      → Option (NestingPokemonInfo F)
      → List NestPokemonCountAndTotal
      → Option (NestingPokemonInfo F)
  unfolding compute_nesting
  summary_loop cfg summary left found [] = found
  summary_loop cfg summary zero found (p ∷ ps) = found
  summary_loop cfg summary (suc left) found (p ∷ ps) =
      summary_loop cfg summary left
        (if is_unexpected p
          then found
          else or_before found (compute_nesting cfg summary p (is_some found)))
        ps

  unfoldable pub process_time_period_summary :
      Config F → NestTimePeriodSummary → Option (NestingPokemonInfo F)
  unfolding summary_loop
  process_time_period_summary cfg summary =
      summary_loop cfg summary 10 none summary.pokemon_counts_and_totals
