-- ===== src/Filters.antt =====
-- The refresher of the nests in the database, filters/db_refresher.go. Parsing a polygon, its area,
-- and the count of spawnpoints in the other database are parameters. Logging is left out.
pub mod Config
pub mod Agreement
pub mod Settled
pub mod Examples
use mathlib.Core.Bool.{◌&&◌, ◌||◌, not}
use fletchling.Prelude.{
  ℕ, ◌/◌, ℤ, pos, Bool, true, false, Option, none, some, List, [], ◌∷◌, if◌then◌else◌, ltb_ℤ, ◌==◌,
  int_eq, string_eq, String,
}
use fletchling.Prelude.Float.{Floats}
use fletchling.Prelude.Time.{Time, unix}
use fletchling.DbStore.{Nest, NestPartialUpdate}
use fletchling.Filters.Config.{FiltersConfig}

pub record RefreshNestConfig (F : Floats) : Type 0 where
  pub filters : FiltersConfig F
  pub concurrency : ℤ
  pub force_spawnpoints_refresh : Bool

-- What a refresh does: the nest it returns, the update that it sends, and whether that failed.
pub record Refreshed (F : Floats) : Type 0 where
  pub nest : Nest F
  pub sent : Option (NestPartialUpdate F)
  pub failed : Bool

abbrev pub is_some {ℓ} : {A : Type ℓ} → Option A → Bool
is_some none = false
is_some (some a) = true

-- `Equal` of a nullable value: both null, or both values and equal.
abbrev pub null_equal {ℓ} : {A : Type ℓ} → (A → A → Bool) → Option A → Option A → Bool
null_equal same none none = true
null_equal same (some a) (some b) = same a b
null_equal same _ _ = false

abbrev pub eqb_Bool : Bool → Bool → Bool
eqb_Bool true b = b
eqb_Bool false b = not b

-- A column of the update, left alone if the value is the one of the row.
abbrev pub changed {ℓ} : {A : Type ℓ} → Bool → A → Option A
changed same new = if same then none else some new

abbrev pub or_old {ℓ} : {A : Type ℓ} → A → Option A → A
or_old old none = old
or_old old (some new) = new

abbrev pub or_old_active : Option Bool → Option Bool → Option Bool
or_old_active old none = old
or_old_active old (some new) = some new

module _ (F : Floats) where
  open F use {Float, of_ℕ, sub, abs, le, lt, eq}

  abbrev far_from : Option Float → Float → Bool
  far_from none area = false
  far_from (some m2) area = lt (of_ℕ 100) (abs (sub m2 area))

  -- The area that the row should have: the old one is kept unless it is far off.
  abbrev corrected : Option Float → Float → Option Float
  corrected none area = some area
  corrected (some m2) area = if far_from (some m2) area then some area else some m2

  abbrev too_large : FiltersConfig F → Float → Bool
  too_large cfg area = lt (of_ℕ 0) cfg.max_area_m2 && lt cfg.max_area_m2 area

  -- The other database is only asked about a good geometry that is not too large.
  abbrev may_query : RefreshNestConfig F → Float → Option ℤ → Bool
  may_query cfg area spawnpoints =
      (le cfg.filters.max_area_m2 (of_ℕ 0) || le area cfg.filters.max_area_m2)
      && (not (is_some spawnpoints) || cfg.force_spawnpoints_refresh)

  abbrev answer_or : Option ℤ → Option ℤ → Option ℤ
  answer_or old none = old
  answer_or old (some number) = some number

  unfoldable pub query_spawnpoints :
      {Geometry : Type 0}
      → RefreshNestConfig F
      → Option (Geometry → ℤ → Option ℤ)
      → Option Geometry
      → Option Float
      → Option ℤ
      → Option ℤ
  query_spawnpoints cfg (some query) (some g) (some area) spawnpoints =
      if may_query cfg area spawnpoints
      then answer_or spawnpoints (query g cfg.filters.max_spawnpoint_age_days)
      else spawnpoints
  query_spawnpoints cfg _ _ _ spawnpoints = spawnpoints

  abbrev too_few : FiltersConfig F → Option ℤ → Bool
  too_few cfg none = false
  too_few cfg (some number) = ltb_ℤ number cfg.min_spawnpoints

  -- Why the nest is discarded, or that it is active.
  unfoldable pub discarded_reason : FiltersConfig F → Option Float → Option ℤ → Option String
  discarded_reason cfg none spawnpoints = some "invalid"
  discarded_reason cfg (some area) spawnpoints =
      if lt area cfg.min_area_m2 || too_large cfg area
      then some "area"
      else if too_few cfg spawnpoints
      then some "spawnpoints"
      else none

  -- A nest that is not active loses its pokemon, but not the pokemon's ratio.
  abbrev pub without_pokemon : Nest F → Nest F
  without_pokemon nest = record nest {
    pokemon_id = none;
    pokemon_form = none;
    pokemon_avg = none;
    pokemon_count = none;
  }

  abbrev pub cleared {ℓ} : {A : Type ℓ} → Bool → Option (Option A)
  cleared clears = if clears then some none else none

  abbrev pub any_sent : NestPartialUpdate F → Bool
  any_sent u =
      ((is_some u.discarded || is_some u.m2) || (is_some u.spawnpoints || is_some u.active))
      || is_some u.pokemon_id

  -- The columns that change, but for the time of the update.
  unfoldable pub changes :
      Nest F → Option Float → Bool → Option ℤ → Option String → NestPartialUpdate F
  changes nest m2 area_updated spawnpoints discarded =
      let active = not (is_some discarded) in
      let clears = is_some discarded && is_some nest.pokemon_id in
      record {
        area_name = none;
        spawnpoints = changed (null_equal (◌==◌) spawnpoints nest.spawnpoints) spawnpoints;
        m2 = changed (null_equal eq m2 nest.m2 && not area_updated) m2;
        active = changed (null_equal eqb_Bool (some active) nest.active) active;
        pokemon_id = cleared clears;
        pokemon_form = cleared clears;
        pokemon_avg = cleared clears;
        pokemon_ratio = none;
        pokemon_count = cleared clears;
        discarded = changed (null_equal (◌==◌) discarded nest.discarded) discarded;
        updated = none;
      }

  -- The nest with the changes, in memory.
  unfoldable pub changed_nest : Time → Nest F → NestPartialUpdate F → Nest F
  changed_nest now nest u =
      let renewed = record nest {
        discarded = or_old nest.discarded u.discarded;
        m2 = or_old nest.m2 u.m2;
        spawnpoints = or_old nest.spawnpoints u.spawnpoints;
        active = or_old_active nest.active u.active;
        updated = some (unix (some now));
      } in
      if is_some u.pokemon_id then without_pokemon renewed else renewed

  abbrev pub refuse_or_take : Nest F → Nest F → NestPartialUpdate F → Bool → Refreshed F
  refuse_or_take old new update true = record { nest = new; sent = some update; failed = false }
  refuse_or_take old new update false = record { nest = old; sent = some update; failed = true }

  unfoldable pub send_changes :
      Time → (NestPartialUpdate F → Bool) → Nest F → NestPartialUpdate F → Refreshed F
  unfolding changed_nest
  send_changes now db_ok nest u =
      if any_sent u
      then (let update = record u { updated = some (some (unix (some now))) } in
          refuse_or_take nest (changed_nest now nest u) update (db_ok update))
      else record { nest = nest; sent = none; failed = false }

-- `geometry_of` parses a polygon, or fails; `golbat` is none if that database is not configured, and
-- its answer is none if the query fails.
module _ (F : Floats) {Geometry : Type 0} (geometry_of : String → Option Geometry)
    (geometry_supported : Geometry → Bool) (area_of : Geometry → F.Float)
    (golbat : Option (Geometry → ℤ → Option ℤ)) where
  -- The geometry if it is good, the area, whether it was corrected, and the spawnpoints so far.
  unfoldable pub measure :
      Option Geometry → Nest F → Option Geometry × Option F.Float × Bool × Option ℤ
  measure none nest = (none, none, false, none)
  measure (some g) nest =
      if geometry_supported g
      then (
        some g,
        corrected F nest.m2 (area_of g),
        far_from F nest.m2 (area_of g),
        nest.spawnpoints,
      )
      else (some g, none, false, none)

  unfoldable pub refresh_nest :
      RefreshNestConfig F → Time → (NestPartialUpdate F → Bool) → Nest F → Refreshed F
  unfolding measure query_spawnpoints discarded_reason changes send_changes
  refresh_nest cfg now db_ok nest =
      let (geometry, m2, area_updated, known) = measure (geometry_of nest.polygon) nest in
      let spawnpoints = query_spawnpoints F cfg golbat geometry m2 known in
      let discarded = discarded_reason F cfg.filters m2 spawnpoints in
      send_changes F now db_ok nest (changes F nest m2 area_updated spawnpoints discarded)
