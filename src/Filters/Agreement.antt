-- ===== src/Filters/Agreement.antt =====
-- What refreshNest of filters/db_refresher.go returns and what it leaves in the database.
use mathlib.Core.Bool.{◌&&◌}
use fletchling.Prelude.{
  ℤ, ◌≡◌, refl, Bool, Option, none, some, if◌then◌else◌, String, int_eq, string_eq, Bool-cases, inl,
  inr,
}
use fletchling.Prelude.Float.{Floats}
use fletchling.Prelude.Time.{Time, unix}
use fletchling.DbStore.{Nest, NestPartialUpdate}
use fletchling.DbStore.Updating.{updated_row, column_or, active_or}
use fletchling.Filters.{
  RefreshNestConfig, Refreshed, is_some, changes, changed_nest, any_sent, or_old, or_old_active,
  send_changes, refresh_nest,
}

-- The row after an update that the database may refuse.
abbrev pub stored :
    {F : Floats} → (NestPartialUpdate F → Bool) → Option (NestPartialUpdate F) → Nest F → Nest F
stored db_ok none row = row
stored db_ok (some u) row = if db_ok u then updated_row u row else row

or_old-eq {ℓ} : {A : Type ℓ} (old : A) (o : Option A) → or_old old o ≡ column_or o old
or_old-eq old none = refl
or_old-eq old (some new) = refl

or_old_active-eq : (old : Option Bool) (o : Option Bool) → or_old_active old (o) ≡ active_or o old
or_old_active-eq old none = refl
or_old_active-eq old (some new) = refl

module _ (F : Floats) (now : Time) (db_ok : NestPartialUpdate F → Bool) (nest : Nest F)
    (m2 : Option F.Float) (area_updated : Bool) (spawnpoints : Option ℤ)
    (discarded : Option String) where
  abbrev update : NestPartialUpdate F
  update = changes F nest m2 area_updated spawnpoints discarded

  abbrev sent_update : NestPartialUpdate F
  sent_update = record update { updated = some (some (unix (some now))) }

  changed_nest-updated_row : changed_nest F now nest update ≡ updated_row sent_update nest
  unfolding changed_nest changes
  changed_nest-updated_row =
      rw
        (
          or_old-eq nest.discarded update.discarded,
          or_old-eq nest.m2 update.m2,
          or_old-eq nest.spawnpoints update.spawnpoints,
          or_old_active-eq nest.active update.active,
        )
        (elim (Bool-cases (is_some discarded && is_some nest.pokemon_id)) [
          | inl clears ↦ rw clears refl
          | inr keeps ↦ rw keeps refl
        ])

  abbrev outcome : Refreshed F
  outcome = send_changes F now db_ok nest update

  send_changes-stored : outcome.nest ≡ stored db_ok outcome.sent nest
  unfolding send_changes
  send_changes-stored = elim (Bool-cases (any_sent F update)) [
    | inl some_sent ↦ elim (Bool-cases (db_ok sent_update)) [
      | inl ok ↦ rw (some_sent, ok) (rw ok changed_nest-updated_row)
      | inr refused ↦ rw (some_sent, refused) (rw refused refl)
    ]
    | inr nothing ↦ rw nothing refl
  ]

module _ (F : Floats) {Geometry : Type 0} (geometry_of : String → Option Geometry)
    (geometry_supported : Geometry → Bool) (area_of : Geometry → F.Float)
    (golbat : Option (Geometry → ℤ → Option ℤ)) (cfg : RefreshNestConfig F) (now : Time)
    (db_ok : NestPartialUpdate F → Bool) (nest : Nest F) where
  abbrev pub refreshed : Refreshed F
  refreshed = refresh_nest F geometry_of geometry_supported area_of golbat cfg now db_ok nest

  -- The nest that refreshNest returns is the given one with the columns of the update that it
  -- sent, if it sent one and the database took it, and else the given one, so what it returns
  -- agrees with the row.
  pub refresh_nest-stored : refreshed.nest ≡ stored db_ok refreshed.sent nest
  unfolding refresh_nest
  refresh_nest-stored = send_changes-stored F now db_ok nest _ _ _ _
