-- ===== src/DbStore/Updating.antt =====
-- updateNestPartial of db_store/nests.go.
use fletchling.Prelude.{
  ◌+◌, ◌≤◌, ◌≡◌, refl, ◌∙◌, ℤ, Bool, false, Option, none, some, List, [], ◌∷◌, ◌++◌, length,
  length-append, leb, Outcome, done, panic, arith, String,
}
use mathlib.Core.List.{append_assoc, append-nil}
use mathlib.Core.Option
use fletchling.Prelude.Float.{Floats}
use fletchling.DbStore.{
  Nest, NestPartialUpdate, Assignment, columns, add_values, finish_update, update_nest_partial,
  assign, assign_all, set_updated, set_area_name, set_spawnpoints, set_m2, set_pokemon_id,
  set_pokemon_form, set_pokemon_avg, set_pokemon_ratio, set_pokemon_count, set_active,
  set_discarded,
}

-- The value that a column has after an update.
abbrev pub column_or {ℓ} : {A : Type ℓ} → Option A → A → A
column_or none old = old
column_or (some new) old = new

abbrev pub active_or : Option Bool → Option Bool → Option Bool
active_or none old = old
active_or (some new) old = some new

module _ {F : Floats} where
  abbrev present : List (Option (Assignment F)) → List (Assignment F)
  present [] = []
  present (none ∷ vs) = present vs
  present (some v ∷ vs) = v ∷ present vs

  add_values-eq :
      (vs : List (Option (Assignment F))) (args : List (Assignment F))
      → length args + length vs ≤ 12
      → add_values vs args ≡ done (args ++ present vs)
  unfolding add_values
  add_values-eq [] args h = rw (append-nil args) refl
  add_values-eq (none ∷ vs) args h = add_values-eq vs args (omega (arith, h))
  add_values-eq (some v ∷ vs) args h =
      let room : leb 12 (length args) ≡ false = ground (arith, h) in
      rw room (
        rw (add_values-eq vs (args ++ v ∷ []) (omega (arith, h, length-append args (v ∷ []))))
          (rw (append_assoc args (v ∷ []) (present vs)) refl))

  length-present : (vs : List (Option (Assignment F))) → length (present vs) ≤ length vs
  length-present [] = omega arith
  length-present (none ∷ vs) = omega (arith, length-present vs)
  length-present (some v ∷ vs) = omega (arith, length-present vs)

  abbrev pub updated_row : NestPartialUpdate F → Nest F → Nest F
  updated_row u row = record row {
    area_name = column_or u.area_name row.area_name;
    spawnpoints = column_or u.spawnpoints row.spawnpoints;
    m2 = column_or u.m2 row.m2;
    active = active_or u.active row.active;
    pokemon_id = column_or u.pokemon_id row.pokemon_id;
    pokemon_form = column_or u.pokemon_form row.pokemon_form;
    pokemon_avg = column_or u.pokemon_avg row.pokemon_avg;
    pokemon_ratio = column_or u.pokemon_ratio row.pokemon_ratio;
    pokemon_count = column_or u.pokemon_count row.pokemon_count;
    discarded = column_or u.discarded row.discarded;
    updated = column_or u.updated row.updated;
  }

  abbrev assign_column : Option (Assignment F) → Nest F → Nest F
  assign_column none row = row
  assign_column (some a) row = assign a row

  abbrev assign_columns : List (Option (Assignment F)) → Nest F → Nest F
  assign_columns [] row = row
  assign_columns (v ∷ vs) row = assign_columns vs (assign_column v row)

  assign_all-present :
      (vs : List (Option (Assignment F))) (row : Nest F)
      → assign_all (present vs) row ≡ assign_columns vs row
  assign_all-present [] row = refl
  assign_all-present (none ∷ vs) row = assign_all-present vs row
  assign_all-present (some v ∷ vs) row = assign_all-present vs (assign v row)

  assign_updated :
      (o : Option (Option ℤ)) (row : Nest F)
      → assign_column (Option.map set_updated o) row
        ≡ record row { updated = column_or o row.updated }
  assign_updated none row = refl
  assign_updated (some v) row = refl

  assign_area_name :
      (o : Option (Option String)) (row : Nest F)
      → assign_column (Option.map set_area_name o) row
        ≡ record row { area_name = column_or o row.area_name }
  assign_area_name none row = refl
  assign_area_name (some v) row = refl

  assign_spawnpoints :
      (o : Option (Option ℤ)) (row : Nest F)
      → assign_column (Option.map set_spawnpoints o) row
        ≡ record row { spawnpoints = column_or o row.spawnpoints }
  assign_spawnpoints none row = refl
  assign_spawnpoints (some v) row = refl

  assign_m2 :
      (o : Option (Option F.Float)) (row : Nest F)
      → assign_column (Option.map set_m2 o) row ≡ record row { m2 = column_or o row.m2 }
  assign_m2 none row = refl
  assign_m2 (some v) row = refl

  assign_pokemon_id :
      (o : Option (Option ℤ)) (row : Nest F)
      → assign_column (Option.map set_pokemon_id o) row
        ≡ record row { pokemon_id = column_or o row.pokemon_id }
  assign_pokemon_id none row = refl
  assign_pokemon_id (some v) row = refl

  assign_pokemon_form :
      (o : Option (Option ℤ)) (row : Nest F)
      → assign_column (Option.map set_pokemon_form o) row
        ≡ record row { pokemon_form = column_or o row.pokemon_form }
  assign_pokemon_form none row = refl
  assign_pokemon_form (some v) row = refl

  assign_pokemon_avg :
      (o : Option (Option F.Float)) (row : Nest F)
      → assign_column (Option.map set_pokemon_avg o) row
        ≡ record row { pokemon_avg = column_or o row.pokemon_avg }
  assign_pokemon_avg none row = refl
  assign_pokemon_avg (some v) row = refl

  assign_pokemon_ratio :
      (o : Option (Option F.Float)) (row : Nest F)
      → assign_column (Option.map set_pokemon_ratio o) row
        ≡ record row { pokemon_ratio = column_or o row.pokemon_ratio }
  assign_pokemon_ratio none row = refl
  assign_pokemon_ratio (some v) row = refl

  assign_pokemon_count :
      (o : Option (Option F.Float)) (row : Nest F)
      → assign_column (Option.map set_pokemon_count o) row
        ≡ record row { pokemon_count = column_or o row.pokemon_count }
  assign_pokemon_count none row = refl
  assign_pokemon_count (some v) row = refl

  assign_active :
      (o : Option (Bool)) (row : Nest F)
      → assign_column (Option.map set_active o) row ≡ record row { active = active_or o row.active }
  assign_active none row = refl
  assign_active (some v) row = refl

  assign_discarded :
      (o : Option (Option String)) (row : Nest F)
      → assign_column (Option.map set_discarded o) row
        ≡ record row { discarded = column_or o row.discarded }
  assign_discarded none row = refl
  assign_discarded (some v) row = refl

  assign_columns-eq :
      (u : NestPartialUpdate F) (row : Nest F) → assign_columns (columns u) row ≡ updated_row u row
  assign_columns-eq u row =
      rw
        (
          assign_updated u.updated,
          assign_area_name u.area_name,
          assign_spawnpoints u.spawnpoints,
          assign_m2 u.m2,
          assign_pokemon_id u.pokemon_id,
          assign_pokemon_form u.pokemon_form,
          assign_pokemon_avg u.pokemon_avg,
          assign_pokemon_ratio u.pokemon_ratio,
          assign_pokemon_count u.pokemon_count,
          assign_active u.active,
          assign_discarded u.discarded,
        )
        refl

  abbrev pub row_after : Outcome (Option (List (Assignment F))) → Nest F → Nest F
  row_after (done (some args)) row = assign_all args row
  row_after (done none) row = row
  row_after (panic f) row = row

  -- There is room for the id of the nest, and nothing is run for no column.
  finish_update-eq :
      (args : List (Assignment F))
      → length args ≤ 11
      → (o : Option (List (Assignment F))) × (finish_update args ≡ done o)
        × ((row : Nest F) → row_after (done o) row ≡ assign_all args row)
  finish_update-eq [] h = (none, refl, λ row. refl)
  finish_update-eq (a ∷ args) h =
      let room : leb 12 (length (a ∷ args)) ≡ false = ground (arith, h) in
      (some (a ∷ args), rw room refl, λ row. refl)

  pub update_nest_partial-eq :
      (u : NestPartialUpdate F)
      → (args : Option (List (Assignment F))) × (update_nest_partial u ≡ done args)
        × ((row : Nest F) → row_after (done args) row ≡ updated_row u row)
  unfolding update_nest_partial
  update_nest_partial-eq u =
      let added = add_values-eq (columns u) [] (omega arith) in
      let (o, finished, same) =
        finish_update-eq (present (columns u)) (omega (arith, length-present (columns u))) in
      (
        o,
        rw added finished,
        λ row. same row ∙ assign_all-present (columns u) row ∙ assign_columns-eq u row,
      )
