-- ===== src/Processor/Examples.antt =====
-- The theorems about processor/ applied to one nest, a park where pikachu nests.
use fletchling.Prelude.{
  ℕ, ◌*◌, ◌≡◌, refl, Bool, true, Option, none, some, List, [], ◌∷◌, take, pos, negsuc, String, inr,
}
use fletchling.Prelude.Float.{fractions, Ratio}
use fletchling.Prelude.Int.{◌+ℤ◌}
use fletchling.Prelude.Word.{wrap64}
use fletchling.Prelude.Time.{hour, times, after_add, Time}
use fletchling.Models.{PokemonKey}
use fletchling.Models.Summary.{NestTimePeriodSummary}
use fletchling.Models.Nest.{Nest, NestingPokemonInfo}
use fletchling.DbStore.{NestPartialUpdate}
use fletchling.Processor.Config.{
  Config, get_default_config, validate, rotation_interval, no_nesting_pokemon_age,
}
use fletchling.Processor.Config.Checked.{IsChecked, validate-IsChecked}
use fletchling.Processor.Nesting.{process_time_period_summary}
use fletchling.Processor.Nesting.First.{Picked, process_time_period_summary-Picked}
use fletchling.Processor.Update.Changes.{
  Round, process_rounds, announced, starts, nesting_key, counted, announced-process_rounds,
}
use fletchling.Processor.Update.Detected.{IsNesting, process_rounds-IsNesting}
use fletchling.Processor.Update.Unset.{process_rounds_quiet}

abbrev cfg : Config fractions
cfg = get_default_config fractions

abbrev pikachu : PokemonKey
pikachu = record { pokemon_id = pos 25; form_id = pos 0 }

abbrev whole : ℕ → Ratio
whole n = record { num = n; den = 1 }

abbrev found_pikachu : Time → NestingPokemonInfo fractions
found_pikachu t = record {
  pokemon_key = pikachu;
  stats_duration_minutes = 60;
  nest_count = 10;
  nest_total = 20;
  nest_hourly_count = whole 10;
  nest_hourly_total = whole 20;
  global_count = 10;
  global_total = 1_000;
  global_hourly_count = whole 10;
  global_hourly_total = whole 1_000;
  detected_at = some t;
  updated_at = some t;
}

abbrev park : Nest fractions String
park = record {
  synced_to_db = true;
  exists_in_db = true;
  id = pos 7;
  name = "park";
  lat = whole 1;
  lon = whole 2;
  geometry = "polygon";
  area_name = none;
  spawnpoints = some (pos 12);
  area_m2 = whole 500;
  active = true;
  discarded = "";
  stats_info = record { updated_at = some hour; nesting_pokemon = some (found_pikachu hour) };
}

abbrev json : String → String
json geometry = geometry

abbrev taken : NestPartialUpdate fractions → Bool
taken update = true

abbrev round : Time → Option (NestingPokemonInfo fractions) → Round fractions
round now found = record { now = now; db_ok = taken; duration = pos (2 * hour); found = found }

abbrev summary : NestTimePeriodSummary
summary = record {
  start_time = 0;
  end_time = some (2 * hour);
  duration = pos (2 * hour);
  pokemon_counts_and_totals =
      record {
        rank = 1;
        pokemon_key = pikachu;
        count = 10;
        total = 20;
        global = 10;
        global_total = 1_000;
      }
      ∷ [];
}

cfg_passes : validate cfg ≡ none
unfolding validate
cfg_passes = refl

validate-IsChecked_example : IsChecked cfg
validate-IsChecked_example = validate-IsChecked cfg cfg_passes

abbrev too_many_minutes : Config fractions
too_many_minutes = record cfg { rotation_interval_minutes = pos 153722868 }

too_many_pass : validate too_many_minutes ≡ none
unfolding validate
too_many_pass = refl

-- The interval has wrapped around.
too_many_wrap : rotation_interval too_many_minutes ≡ negsuc 9223371993709551615
unfolding rotation_interval times wrap64
too_many_wrap = refl

process_time_period_summary-Picked_example :
    Picked fractions cfg summary
      (take 10 summary.pokemon_counts_and_totals)
      (process_time_period_summary fractions cfg summary)
process_time_period_summary-Picked_example =
    process_time_period_summary-Picked fractions cfg summary

abbrev end_and_start : List (Round fractions)
end_and_start = round (3 * hour) none ∷ round (4 * hour) (some (found_pikachu (4 * hour))) ∷ []

announced-process_rounds_example :
    announced fractions json cfg (process_rounds fractions json cfg end_and_start park).1
    ≡ starts fractions json cfg
        (nesting_key fractions json cfg park)
        (counted fractions json cfg end_and_start)
announced-process_rounds_example = announced-process_rounds fractions json cfg end_and_start park

abbrev again : List (Round fractions)
again = round (3 * hour) (some (found_pikachu (3 * hour))) ∷ []

process_rounds-IsNesting_example :
    IsNesting fractions json cfg pikachu
      (some hour)
      (process_rounds fractions json cfg again park).0
process_rounds-IsNesting_example =
    process_rounds-IsNesting fractions json cfg pikachu (some hour) again park
      (inr (found_pikachu (3 * hour), refl, refl), tt) (refl, refl)

abbrev half_day_later : List (Round fractions)
half_day_later = round (14 * hour) none ∷ []

late : after_add (14 * hour) (some hour) (no_nesting_pokemon_age cfg) ≡ true
unfolding after_add no_nesting_pokemon_age times wrap64 ◌+ℤ◌
late = refl

process_rounds_quiet_example : (process_rounds fractions json cfg half_day_later park).1 ≡ []
process_rounds_quiet_example =
    process_rounds_quiet fractions json cfg (some hour) half_day_later park ((refl, late), tt) refl
