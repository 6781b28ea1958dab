-- ===== src/Models/Summary.antt =====
-- The pokemon of one nest over some time, in processor/models/stats.go. The nest itself stands in a
-- summary only to be logged, and is left out.
use fletchling.Prelude.{ℕ, Bool, Option, List, if◌then◌else◌, eqb, ltb}
use fletchling.Prelude.Float.{Floats}
use fletchling.Prelude.Time.{Time, Duration}
use fletchling.Models.{PokemonKey}

-- `count` of `total` pokemon in the nest, `global` of `global_total` in the world.
pub record NestPokemonCountAndTotal : Type 0 where
  pub rank : ℕ
  pub pokemon_key : PokemonKey
  pub count : ℕ
  pub total : ℕ
  pub global : ℕ
  pub global_total : ℕ

pub record NestTimePeriodSummary : Type 0 where
  pub start_time : Time
  pub end_time : Option Time
  pub duration : Duration
  pub pokemon_counts_and_totals : List NestPokemonCountAndTotal

-- Count down, global up.
unfoldable pub less : NestPokemonCountAndTotal → NestPokemonCountAndTotal → Bool
less a b = if eqb a.count b.count then ltb a.global b.global else ltb b.count a.count

module _ (F : Floats) where
  open F use {Float, of_ℕ, mul, div}

  -- `100 * part / whole`, and 0 of nothing.
  unfoldable pub percent : ℕ → ℕ → Float
  percent part whole = if eqb whole 0 then of_ℕ 0 else div (mul (of_ℕ 100) (of_ℕ part)) (of_ℕ whole)

  unfoldable pub nest_pct : NestPokemonCountAndTotal → Float
  unfolding percent
  nest_pct p = percent p.count p.total

  unfoldable pub global_pct : NestPokemonCountAndTotal → Float
  unfolding percent
  global_pct p = percent p.global p.global_total
