-- ===== src/Processor/Loaders.antt =====
-- The loaders of nests of processor/nest_loader/: the one of the database and the one of Koji. What Koji
-- and the database answer are parameters.
pub mod Resolved
pub mod Examples
use fletchling.Prelude.{ℕ, ℤ, int_eq, true, Option, none, some, List, [], ◌∷◌, map, String}
use fletchling.Prelude.Float.{Floats}
use fletchling.Prelude.Time.{Time}
use fletchling.Prelude.Map.{Map, lookup}
use fletchling.DbStore
use fletchling.DbStore.Rows.{RowsError, Returned, Cursor, get_all_nests}
use fletchling.DbStore.Batches.{Lookups, get_nests_without_polygon}
use fletchling.Geo.{Feature, Parsed, ok, err}
use fletchling.Models.Nest.{
  Nest, NestStatsInfo, nesting_pokemon_info_from_db_store, set_nesting_pokemon,
}
use fletchling.Models.Loading.{
  empty_if_null, false_if_null, zero_if_null, new_nest_from_db_store, new_nest_from_koji_feature,
}

module _ (F : Floats) where
  abbrev rows_or_none : Option (List (DbStore.Nest F)) → List (DbStore.Nest F)
  rows_or_none none = []
  rows_or_none (some rows) = rows

  abbrev pub nest_id : {Geometry : Type 0} → Nest F Geometry → ℤ
  nest_id nest = nest.id

  abbrev pub row_id : DbStore.Nest F → ℤ
  row_id row = row.nest_id

  -- A nil map has no rows.
  abbrev pub row_of : Option (Map ℤ (DbStore.Nest F)) → ℤ → Option (DbStore.Nest F)
  unfolding lookup
  row_of none id = none
  row_of (some m) id = lookup id m

module _ (F : Floats) {Geometry : Type 0} (now : Time) where
  abbrev pub and_some : Option (Nest F Geometry) → List (Nest F Geometry) → List (Nest F Geometry)
  and_some none nests = nests
  and_some (some nest) nests = nest ∷ nests

  -- A row whose nest cannot be made is skipped.
  unfoldable pub nests_of_rows :
      (String → Option Geometry) → List (DbStore.Nest F) → List (Nest F Geometry)
  unfolding new_nest_from_db_store
  nests_of_rows geometry_of [] = []
  nests_of_rows geometry_of (row ∷ rows) =
      and_some (new_nest_from_db_store F geometry_of now row) (nests_of_rows geometry_of rows)

  unfoldable pub load_db_nests :
      (String → Option Geometry)
      → Option (Cursor (DbStore.Nest F))
      → Option (List (Nest F Geometry))
  unfolding get_all_nests nests_of_rows
  load_db_nests geometry_of answer =
      let r = get_all_nests answer in
      elim r.error [
        | some _ ↦ none
        | none ↦ some (nests_of_rows geometry_of (rows_or_none F r.value))
      ]

  -- What the database knows of a nest wins over what Koji's feature tells.
  unfoldable pub resolved : Nest F Geometry → Option (DbStore.Nest F) → Nest F Geometry
  unfolding nesting_pokemon_info_from_db_store set_nesting_pokemon
  resolved nest none = nest
  resolved nest (some row) =
      let (ni, updated_at) = nesting_pokemon_info_from_db_store F now row in
      record nest {
        exists_in_db = true;
        spawnpoints = row.spawnpoints;
        area_m2 = zero_if_null F row.m2;
        active = false_if_null row.active;
        discarded = empty_if_null row.discarded;
        stats_info = (set_nesting_pokemon F now ni updated_at nest.stats_info).0;
      }

  module _ (area_of : Geometry → F.Float) (label_point : Geometry → F.Float × F.Float) where
    abbrev pub and_ok : Parsed (Nest F Geometry) → List (Nest F Geometry) → List (Nest F Geometry)
    and_ok (err _) nests = nests
    and_ok (ok nest) nests = nest ∷ nests

    -- A feature of which no nest can be made is skipped.
    unfoldable pub nests_of_features : List (Feature Geometry) → List (Nest F Geometry)
    unfolding new_nest_from_koji_feature
    nests_of_features [] = []
    nests_of_features (feature ∷ features) =
        and_ok (new_nest_from_koji_feature F area_of label_point now feature)
          (nests_of_features features)

    unfoldable pub resolve :
        Option (Map ℤ (DbStore.Nest F)) → List (Nest F Geometry) → List (Nest F Geometry)
    unfolding resolved row_of
    resolve found [] = []
    resolve found (nest ∷ nests) = resolved nest (row_of F found nest.id) ∷ resolve found nests

    abbrev resolved_all :
        List (Nest F Geometry) → Lookups (DbStore.Nest F) → Option (List (Nest F Geometry))
    unfolding resolve
    resolved_all nests r = elim r.error [ some _ ↦ none | none ↦ some (resolve r.nests nests) ]

    abbrev pub all_or_fuel :
        List (Nest F Geometry)
        → Option (Lookups (DbStore.Nest F))
        → Option (Option (List (Nest F Geometry)))
    unfolding resolved_all
    all_or_fuel nests none = none
    all_or_fuel nests (some r) = some (resolved_all nests r)

    -- The outer option is none if the fuel of the query runs out, the inner one on an error.
    unfoldable pub load_koji_nests :
        (ℕ → List ℤ → Option (Cursor (DbStore.Nest F)))
        → ℕ
        → Option (List (Feature Geometry))
        → Option (Option (List (Nest F Geometry)))
    unfolding nests_of_features get_nests_without_polygon all_or_fuel
    load_koji_nests ask fuel none = some none
    load_koji_nests ask fuel (some features) =
        let nests = nests_of_features features in
        all_or_fuel nests (get_nests_without_polygon (row_id F) ask (map (nest_id F) nests) fuel)
