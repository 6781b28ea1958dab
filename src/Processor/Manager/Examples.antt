-- ===== src/Processor/Manager/Examples.antt =====
-- Concrete runs of the manager, processor/manager.go. A processor is its interval.
use fletchling.Prelude.{
  ℕ, ◌+◌, ◌*◌, ◌≡◌, ◌≤◌, ◌<◌, refl, inl, inr, ℤ, pos, int_eq, pos_part, ◌≤ℤ◌, Bool, true, false,
  Option, none, some, List, [], ◌∷◌, arith, String, leb, length,
}
use fletchling.Prelude.Float.{fractions, Ratio}
use fletchling.Prelude.Int.{eqb_ℤ}
use fletchling.Prelude.Map.{lookup}
use fletchling.Prelude.Time.{Time, Duration, minute}
use fletchling.DbStore
use fletchling.DbStore.Rows.{Cursor}
use fletchling.Geo.Fences.{Shapes, Geometry, of_polygon}
use fletchling.Processor.Matcher.Examples.{ranges}
use fletchling.Processor.Manager.{System, Step, Reach, start, on_reload, swap_processor}
use fletchling.Processor.Manager.Timely.{Reach-rotates, IsDue, Step-IsDue}
use fletchling.Processor.Manager.Loading.{Infos, Matcher, load_config}
use fletchling.Processor.Manager.Carried.{IsOwned, IsCarried, load_config-IsCarried}

-- In minutes.
abbrev interval_of : ℕ → Duration
interval_of n = pos (n * minute)

interval_of_positive : (n : ℕ) → pos 0 ≤ℤ interval_of n
interval_of_positive n = omega arith

-- Started with an interval of 15 minutes, and told of one of 5 minutes after 6 minutes.
abbrev told : System interval_of
told = swap_processor interval_of (6 * minute) 5 (start interval_of 0 15 15)

told-Reach : Reach interval_of told
unfolding start
told-Reach = Reach.later (Reach.started 0 15 15) (Step.load (6 * minute) 5 (omega arith))

Reach-rotates_example :
    (t : System interval_of) × Step interval_of told t
    × (t.rotations ≡ (15 * minute, 15) ∷ [])
    × (t.loop.stats_timer_start ≡ 15 * minute)
unfolding start swap_processor
Reach-rotates_example =
    Reach-rotates interval_of interval_of_positive told (15 * minute) told-Reach (omega arith)
      (omega arith)

Step-IsDue_example :
    IsDue interval_of interval_of_positive told (on_reload interval_of (7 * minute) told)
unfolding start swap_processor
Step-IsDue_example =
    Step-IsDue interval_of interval_of_positive told-Reach
      (Step.reload (7 * minute) (omega arith) refl)

-- The new interval has passed: the reload rotates at once.
reload_rotates : (on_reload interval_of (7 * minute) told).rotations ≡ (7 * minute, 5) ∷ []
unfolding start swap_processor on_reload fletchling.Prelude.Time.time_sub eqb_ℤ
reload_rotates = refl

-- A reload between the two: the loop begins with the processor of before, and no signal is pending.
missed : (start interval_of 0 15 5).loop.nest_processor ≡ 15
unfolding start
missed = refl

abbrev half : Ratio
half = record { num = 1; den = 2 }

abbrev row : DbStore.Nest fractions
row = record {
  nest_id = pos 7;
  lat = half;
  lon = half;
  name = "Park";
  polygon = "{}";
  area_name = none;
  spawnpoints = some (pos 12);
  m2 = some half;
  active = some true;
  pokemon_id = some (pos 25);
  pokemon_form = some (pos 0);
  pokemon_avg = some half;
  pokemon_ratio = some half;
  pokemon_count = some half;
  discarded = none;
  updated = some (pos 100);
}

abbrev one_row : Option (Cursor (DbStore.Nest fractions))
one_row = some (record { scanned = some row ∷ []; broken = false; close_fails = false })

abbrev parse : String → Option (Geometry ranges)
parse s = some (of_polygon (some (2, 8)))

-- What the start loads: with no matcher before, every nest gets a place of its own.
none-IsOwned : IsOwned fractions ranges none []
none-IsOwned = record { placed = λ id h e. cc; apart = λ id id' h h' e e' s. cc }

abbrev pair_or : {A B : Type 0} → A × B → Option (A × B) → A × B
pair_or p none = p
pair_or p (some q) = q

abbrev loaded_once : Infos fractions ranges × Matcher fractions ranges
loaded_once =
    pair_or ([], record { nests_rtree = []; nests = [] })
      (load_config fractions ranges parse 0 none [] one_row)

first_load : IsCarried fractions ranges none [] none-IsOwned loaded_once.0 loaded_once.1
unfolding load_config lookup eqb_ℤ
first_load =
    load_config-IsCarried fractions ranges none [] none-IsOwned parse 0 one_row loaded_once.0
      loaded_once.1 refl

-- A reload of the same row: the nest keeps its place in the store.
abbrev loaded_twice : Infos fractions ranges × Matcher fractions ranges
loaded_twice =
    pair_or ([], record { nests_rtree = []; nests = [] })
      (load_config fractions ranges parse 1 (some loaded_once.1) loaded_once.0 one_row)

load_config-IsCarried_example :
    IsCarried fractions ranges
      (some loaded_once.1)
      loaded_once.0
      first_load.owned
      loaded_twice.0
      loaded_twice.1
unfolding load_config lookup eqb_ℤ
load_config-IsCarried_example =
    load_config-IsCarried fractions ranges (some loaded_once.1) loaded_once.0 first_load.owned parse
      1 one_row loaded_twice.0 loaded_twice.1 refl

one_place : length loaded_twice.0 ≡ 1
unfolding load_config lookup eqb_ℤ fletchling.Geo.Fences.insert_geometry
    fletchling.Prelude.Map.insert
one_place = refl
