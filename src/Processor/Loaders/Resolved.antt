-- ===== src/Processor/Loaders/Resolved.antt =====
-- What the loader of Koji's nests, processor/nest_loader/koji.go, makes of the rows of a table.
use fletchling.Prelude.{
  ℕ, ◌≤◌, ◌≡◌, refl, ap, ℤ, int_eq, true, Option, none, some, List, [], ◌∷◌, map, length,
  length-map, All, if◌then◌else◌, arith,
}
use fletchling.Prelude.Float.{Floats}
use fletchling.Prelude.Time.{Time}
use fletchling.Prelude.Map.{Map, lookup}
use fletchling.DbStore
use fletchling.DbStore.Rows.{Cursor}
use fletchling.DbStore.Batches.{Lookups, get_nests_without_polygon}
use fletchling.DbStore.Batches.Found.{
  contains, row_with, rows_with, get_nests_without_polygon-finds,
}
use fletchling.DbStore.Streaming.Pages.{good_answer}
use fletchling.Geo.{Feature}
use fletchling.Models.Nest.{Nest}
use fletchling.Processor.Loaders.{
  nests_of_features, nest_id, row_id, resolved, resolve, all_or_fuel, load_koji_nests,
}

module _ (F : Floats) {Geometry : Type 0} (now : Time) (area_of : Geometry → F.Float)
    (label_point : Geometry → F.Float × F.Float) (table : List (DbStore.Nest F)) where
  -- The nest with what its row in the table tells.
  abbrev pub with_row : Nest F Geometry → Nest F Geometry
  unfolding resolved
  with_row nest = resolved F now nest (row_with (row_id F) nest.id table)

  abbrev AreAsked : List ℤ → List (Nest F Geometry) → Type 0
  AreAsked ids nests = All (λ nest. contains ids nest.id ≡ true) nests

  AreAsked-more :
      (id : ℤ) (ids : List ℤ) (nests : List (Nest F Geometry))
      → AreAsked ids nests
      → AreAsked (id ∷ ids) nests
  AreAsked-more id ids [] h = tt
  AreAsked-more id ids (nest ∷ nests) (here, h) =
      (ground (arith, here), AreAsked-more id ids nests h)

  all-AreAsked : (nests : List (Nest F Geometry)) → AreAsked (map (nest_id F) nests) nests
  all-AreAsked [] = tt
  all-AreAsked (nest ∷ nests) = (
    grind (arith, int_eq.same_iff nest.id nest.id),
    AreAsked-more nest.id (map (nest_id F) nests) nests (all-AreAsked nests),
  )

  resolve-rows :
      (ids : List ℤ) (found : Map ℤ (DbStore.Nest F)) (nests : List (Nest F Geometry))
      → AreAsked ids nests
      → ((k : ℤ) → lookup k found ≡ (if contains ids k then row_with (row_id F) k table else none))
      → resolve F now area_of label_point (some found) nests ≡ map with_row nests
  unfolding resolve
  resolve-rows ids found [] h finds = refl
  resolve-rows ids found (nest ∷ nests) (here, h) finds =
      rw (finds nest.id, here) (ap (◌∷◌ (with_row nest)) (resolve-rows ids found nests h finds))

  all_or_fuel-found :
      (ids : List ℤ) (nests : List (Nest F Geometry)) (r : Option (Lookups (DbStore.Nest F)))
      (found : Map ℤ (DbStore.Nest F))
      → AreAsked ids nests
      → r ≡ some (record { nests = some found; error = none })
      → ((k : ℤ) → lookup k found ≡ (if contains ids k then row_with (row_id F) k table else none))
      → all_or_fuel F now area_of label_point nests r ≡ some (some (map with_row nests))
  unfolding all_or_fuel
  all_or_fuel-found ids nests r found h e finds =
      rw e (ap (λ l. some (some l)) (resolve-rows ids found nests h finds))

  merged-eq :
      (ask : ℕ → List ℤ → Option (Cursor (DbStore.Nest F))) (fuel : ℕ)
      (nests : List (Nest F Geometry))
      → ((n : ℕ) (some_ids : List ℤ)
          → n ≡ length some_ids
          → ask n some_ids ≡ good_answer (rows_with (row_id F) some_ids table))
      → length nests ≤ fuel
      → all_or_fuel F now area_of label_point nests
          (get_nests_without_polygon (row_id F) ask (map (nest_id F) nests) fuel)
        ≡ some (some (map with_row nests))
  unfolding get_nests_without_polygon all_or_fuel resolve
  merged-eq ask fuel [] answers enough = refl
  merged-eq ask fuel (nest ∷ nests) answers enough =
      let (found, e, finds) =
        get_nests_without_polygon-finds (row_id F) ask table nest.id (map (nest_id F) nests) fuel
          answers (rw (length-map (nest_id F) (nest ∷ nests)) enough) in
      all_or_fuel-found (map (nest_id F) (nest ∷ nests)) (nest ∷ nests) _ found
        (all-AreAsked (nest ∷ nests)) e finds

  pub load_koji_nests-eq_table :
      (ask : ℕ → List ℤ → Option (Cursor (DbStore.Nest F))) (fuel : ℕ)
      (features : List (Feature Geometry))
      → ((n : ℕ) (some_ids : List ℤ)
          → n ≡ length some_ids
          → ask n some_ids ≡ good_answer (rows_with (row_id F) some_ids table))
      → length (nests_of_features F now area_of label_point features) ≤ fuel
      → load_koji_nests F now area_of label_point ask fuel (some features)
        ≡ some (some (map with_row (nests_of_features F now area_of label_point features)))
  unfolding load_koji_nests
  load_koji_nests-eq_table ask fuel features answers enough =
      merged-eq ask fuel (nests_of_features F now area_of label_point features) answers enough
