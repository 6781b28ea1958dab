-- ===== src/Processor/Rotating.antt =====
-- NestProcessor of processor/processor.go as far as it keeps statistics: it hands its configuration to
-- the collection, which a reload takes over from the processor before.
use fletchling.Prelude.{
  ℕ, ◌≡◌, ◌*◌, Bool, Option, none, some, int_laws, pos, ◌≤ℤ◌, Outcome, done, Bool-cases, inl, inr,
  List, length, ◌>>=◌, ℤ,
}
use fletchling.Prelude.Int.{parts}
use fletchling.Prelude.Float.{Floats}
use fletchling.Prelude.Time.{Time, hour}
use fletchling.Models.{PokemonKey}
use fletchling.Stats.Collection
use fletchling.Stats.Collection.{StatsCollection, new_stats_collection}
use fletchling.Stats.Collection.Sound.{IsSound}
use fletchling.Stats.Rotation.{FrozenStatsCollection, throws_away, rotate}
use fletchling.Stats.Rotation.Sound.{rotate_kept, rotate_thrown}
use fletchling.Processor.Config.{Config, validate, max_history_duration}
use fletchling.Processor.Config.Checked.{validate-IsChecked}

pub record AddPokemonStats : Type 0 where
  pub was_counted : Bool
  pub num_nests_matched : ℕ

-- The nests that match the place of the pokemon are given.
unfoldable pub add_pokemon :
    PokemonKey → List ℤ → StatsCollection → Outcome (StatsCollection × AddPokemonStats)
add_pokemon k ids stats = do
  (stats', counted) ← Collection.add_pokemon k ids stats
  done (stats', record { was_counted = counted; num_nests_matched = length ids })

-- The collection of the processor before, if there was one.
abbrev pub stats_for : Time → Option StatsCollection → StatsCollection
stats_for now none = new_stats_collection now
stats_for now (some old) = old

module _ (F : Floats) (extra : ℕ → ℕ) (now : Time) (cfg : Config F) where
  unfoldable pub rotate_stats :
      StatsCollection → Outcome (StatsCollection × Option FrozenStatsCollection)
  rotate_stats = rotate F extra now (max_history_duration cfg) cfg.skip_period_min_global_spawn_pct

  -- A rotation that returns a sound collection of at most a week of finished periods.
  pub record IsRotated (r : Outcome (StatsCollection × Option FrozenStatsCollection)) : Type 0 where
    pub after : StatsCollection
    pub frozen : Option FrozenStatsCollection
    pub result : r ≡ done (after, frozen)
    pub sound : IsSound after
    pub bounded : after.total_duration ≤ℤ max_history_duration cfg
    pub within_week : after.total_duration ≤ℤ pos (168 * hour)

  -- With a configuration that Validate accepts, RotateStats on a sound collection returns, with
  -- no fault, leaves a sound collection, and the periods that are over then last at most the
  -- longest history, which is at most 168 hours.
  pub rotate_stats-IsRotated :
      (stats : StatsCollection)
      → validate cfg ≡ none
      → IsSound stats
      → IsRotated (rotate_stats stats)
  unfolding rotate_stats
  rotate_stats-IsRotated stats valid h =
      let c = validate-IsChecked cfg valid in
      let nonneg : pos 0 ≤ℤ max_history_duration cfg = omega (int_laws, parts c.max_is) in
      let week : max_history_duration cfg ≤ℤ pos (168 * hour) =
        omega (int_laws, parts c.max_is, c.within_week) in
      elim (Bool-cases
        (throws_away F cfg.skip_period_min_global_spawn_pct h.current.global_counts)) [
          | inl thrown ↦
              let r =
                rotate_thrown F extra now (max_history_duration cfg) nonneg stats h _ thrown in
              record {
                after = r.after;
                frozen = none;
                result = r.result;
                sound = r.sound;
                bounded = r.bounded;
                within_week = omega (int_laws, r.bounded, week);
              }
          | inr kept ↦
              let (f, r, _) =
                rotate_kept F extra now (max_history_duration cfg) nonneg stats h _ kept in
              record {
                after = r.after;
                frozen = some f;
                result = r.result;
                sound = r.sound;
                bounded = r.bounded;
                within_week = omega (int_laws, r.bounded, week);
              }
        ]
