-- ===== src/Processor/Loaders/Examples.antt =====
-- The loader of Koji's nests on one nest that the table has and one that it has not.
use fletchling.Prelude.{ℕ, ℤ, pos, ◌≡◌, refl, Option, none, some, List, [], ◌∷◌, map, true, arith}
use fletchling.Prelude.Float.{fractions}
use fletchling.DbStore
use fletchling.DbStore.Rows.{Cursor}
use fletchling.DbStore.Batches.Found.{rows_with}
use fletchling.DbStore.Streaming.Pages.{good_answer}
use fletchling.Geo.{Feature, int64, text}
use fletchling.Processor.Loaders.{row_id, nests_of_features, load_koji_nests}
use fletchling.Processor.Loaders.Resolved.{with_row, load_koji_nests-eq_table}

abbrev one : fractions.Float
one = record { num = 1; den = 1 }

abbrev row : DbStore.Nest fractions
row = record {
  nest_id = pos 7;
  lat = one;
  lon = one;
  name = "Park";
  polygon = "{}";
  area_name = none;
  spawnpoints = some (pos 12);
  m2 = some one;
  active = some true;
  pokemon_id = some (pos 25);
  pokemon_form = some (pos 0);
  pokemon_avg = some one;
  pokemon_ratio = some one;
  pokemon_count = some one;
  discarded = none;
  updated = some (pos 100);
}

abbrev table : List (DbStore.Nest fractions)
table = row ∷ []

abbrev feature : ℤ → Feature (Unit {0})
feature id = record { properties = ("name", text "Park") ∷ ("id", int64 id) ∷ []; geometry = tt }

abbrev features : List (Feature (Unit {0}))
features = feature (pos 7) ∷ feature (pos 8) ∷ []

abbrev ask : ℕ → List ℤ → Option (Cursor (DbStore.Nest fractions))
ask _ ids = good_answer (rows_with (row_id fractions) ids table)

load_koji_nests-eq_table_example :
    load_koji_nests fractions 0 (λ _. one) (λ _. (one, one)) ask 2 (some features)
    ≡ some (
        some (
          map
            (with_row fractions 0 (λ _. one) (λ _. (one, one)) table)
            (nests_of_features fractions 0 (λ _. one) (λ _. (one, one)) features)))
unfolding nests_of_features
load_koji_nests-eq_table_example =
    load_koji_nests-eq_table fractions 0 (λ _. one) (λ _. (one, one)) table ask 2 features
      (λ _ _ _. refl) (ground arith)
