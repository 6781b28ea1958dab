-- ===== src/Importers/Examples.antt =====
-- Concrete imports, importers/db.go.
use fletchling.Prelude.{
  ◌≡◌, refl, inl, ℕ, pos, int_eq, string_eq, true, false, none, some, List, [], ◌∷◌, String,
  if◌then◌else◌, Bool-cases, inr, ◌==◌, subst,
}
use fletchling.Prelude.Float.{fractions, Ratio}
use fletchling.Prelude.Map.{lookup}
use fletchling.DbStore
use fletchling.Geo.{Feature, text, int64}
use fletchling.Importers.{Failures, Table, import_features}
use fletchling.Importers.Settled.{IsSettled, AllSettled, import_features-AllSettled}
use fletchling.Importers.Existing.{KeepsRows, import_features-KeepsRows}

abbrev half : Ratio
half = record { num = 1; den = 2 }

abbrev park : DbStore.Nest fractions
park = record {
  nest_id = pos 7;
  lat = half;
  lon = half;
  name = "Park";
  polygon = "{}";
  area_name = none;
  spawnpoints = some (pos 12);
  m2 = some half;
  active = some true;
  pokemon_id = some (pos 25);
  pokemon_form = some (pos 0);
  pokemon_avg = some half;
  pokemon_ratio = some half;
  pokemon_count = some half;
  discarded = none;
  updated = some (pos 100);
}

abbrev parks : Table fractions
parks = (pos 7, park) ∷ []

abbrev area : ℕ → Ratio
area g = half

abbrev label : ℕ → Ratio × Ratio
label g = (half, half)

abbrev json : ℕ → String
json g = "{}"

abbrev all_well : Failures
all_well = record { reading = false; encoding = false; writing = false }

abbrev feature : Feature ℕ
feature = record { properties = ("name", text "Lawn") ∷ ("id", int64 (pos 7)) ∷ []; geometry = 3 }

abbrev features : List (Feature ℕ × Failures)
features = (feature, all_well) ∷ []

parks-AllSettled : AllSettled fractions parks
unfolding lookup
parks-AllSettled id row e =
    let found : (if pos 7 == id then some park else none) ≡ some row = e in
    elim (Bool-cases (pos 7 == id)) [
      | inl here ↦
          let same : park ≡ row = cc (rw here at found) in
          subst (IsSettled fractions) same (inl (refl, refl))
      | inr elsewhere ↦ cc (rw elsewhere at found)
    ]

import_features-AllSettled_example :
    AllSettled fractions (import_features fractions area label json (pos 200) features parks)
import_features-AllSettled_example =
    import_features-AllSettled fractions area label json (pos 200) features parks parks-AllSettled

import_features-KeepsRows_example :
    KeepsRows fractions parks (import_features fractions area label json (pos 200) features parks)
import_features-KeepsRows_example =
    import_features-KeepsRows fractions area label json (pos 200) features parks parks-AllSettled
      (refl, tt)
