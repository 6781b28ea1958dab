-- ===== src/Filters/Settled.antt =====
-- That refreshNest of filters/db_refresher.go leaves no nest half discarded.
use mathlib.Core.Bool.{◌&&◌, ◌||◌, not}
use fletchling.Prelude.{
  ℤ, ◌≡◌, refl, sym, ap, Bool, true, false, Option, none, some, String, ◌==◌, int_eq, string_eq, Eq,
  Bool-cases, inl, inr, arith, ◌∙◌,
}
use fletchling.Prelude.Float.{Floats}
use fletchling.Prelude.Time.{Time, unix}
use fletchling.DbStore.{Nest, NestPartialUpdate}
use fletchling.Filters.{
  RefreshNestConfig, Refreshed, is_some, null_equal, eqb_Bool, changed, measure, query_spawnpoints,
  discarded_reason, changes, changed_nest, any_sent, or_old, or_old_active, send_changes,
  refresh_nest,
}

null_equal_lem {ℓ} : {A : Type ℓ} ⦃e : Eq A⦄ (a b : Option A) → null_equal (◌==◌) a b ≡ true → a ≡ b
null_equal_lem none none h = refl
null_equal_lem none (some b) h = cc
null_equal_lem (some a) none h = cc
null_equal_lem ⦃e⦄ (some a) (some b) h = ap some ((e.same_iff a b).0 h)

-- A column takes the new value, whether it was sent or not.
or_old-changed {ℓ} :
    {A : Type ℓ} ⦃e : Eq A⦄ (old new : Option A)
    → or_old old (changed (null_equal (◌==◌) new old) new) ≡ new
or_old-changed old new = elim (Bool-cases (null_equal (◌==◌) new old)) [
  | inl same ↦ rw same (sym (null_equal_lem new old same))
  | inr other ↦ rw other refl
]

or_old_active-changed :
    (old : Option Bool) (new : Bool)
    → or_old_active old (changed (null_equal eqb_Bool (some new) old) new) ≡ some new
or_old_active-changed none new = refl
or_old_active-changed (some true) true = refl
or_old_active-changed (some true) false = refl
or_old_active-changed (some false) true = refl
or_old_active-changed (some false) false = refl

or_old_nothing {ℓ} : {A : Type ℓ} (old : A) (o : Option A) → is_some o ≡ false → or_old old o ≡ old
or_old_nothing old none h = refl
or_old_nothing old (some new) h = cc

or_old_active_nothing :
    (old : Option Bool) (o : Option Bool) → is_some o ≡ false → or_old_active old o ≡ old
or_old_active_nothing old none h = refl
or_old_active_nothing old (some new) h = cc

none_sent :
    (a b c d e : Bool)
    → ((a || b) || (c || d)) || e ≡ false
    → (a ≡ false) × (d ≡ false) × (e ≡ false)
none_sent a b c d e h = (ground (arith, h), ground (arith, h), ground (arith, h))

-- Active exactly without a reason to be discarded, and with no pokemon if there is one.
pub record IsSettled {F : Floats} (reason : Option String) (nest : Nest F) : Type 0 where
  pub discarded : nest.discarded ≡ reason
  pub active : nest.active ≡ some (not (is_some reason))
  pub pokemon : is_some reason ≡ true → nest.pokemon_id ≡ none

module _ (F : Floats) (now : Time) (db_ok : NestPartialUpdate F → Bool) (nest : Nest F)
    (m2 : Option F.Float) (area_updated : Bool) (spawnpoints : Option ℤ)
    (reason : Option String) where
  abbrev update : NestPartialUpdate F
  update = changes F nest m2 area_updated spawnpoints reason

  abbrev clears : Bool
  clears = is_some reason && is_some nest.pokemon_id

  no_pokemon : clears ≡ false → is_some reason ≡ true → nest.pokemon_id ≡ none
  no_pokemon h k = ground (arith, h, k)

  changed-IsSettled : IsSettled reason (changed_nest F now nest update)
  unfolding changed_nest changes
  changed-IsSettled = elim (Bool-cases clears) [
    | inl clear ↦ rw clear (record {
      discarded = or_old-changed nest.discarded reason;
      active = or_old_active-changed nest.active (not (is_some reason));
      pokemon = λ k. refl;
    })
    | inr keep ↦ rw keep (record {
      discarded = or_old-changed nest.discarded reason;
      active = or_old_active-changed nest.active (not (is_some reason));
      pokemon = no_pokemon keep;
    })
  ]

  same-IsSettled : any_sent F update ≡ false → IsSettled reason nest
  unfolding changes
  same-IsSettled h =
      let (d, a, p) =
        none_sent (is_some update.discarded) (is_some update.m2) (is_some update.spawnpoints)
          (is_some update.active) (is_some update.pokemon_id) h in
      record {
        discarded =
            sym (or_old_nothing nest.discarded update.discarded d)
            ∙ or_old-changed nest.discarded reason;
        active =
            sym (or_old_active_nothing nest.active update.active a)
            ∙ or_old_active-changed nest.active (not (is_some reason));
        pokemon = no_pokemon (ground (arith, p));
      }

  abbrev sent_update : NestPartialUpdate F
  sent_update = record update { updated = some (some (unix (some now))) }

  abbrev outcome : Refreshed F
  outcome = send_changes F now db_ok nest update

  send_changes-IsSettled : outcome.failed ≡ false → IsSettled reason outcome.nest
  unfolding send_changes
  send_changes-IsSettled h = elim (Bool-cases (any_sent F update)) [
    | inl some_sent ↦ elim (Bool-cases (db_ok sent_update)) [
      | inl ok ↦ rw (some_sent, ok) changed-IsSettled
      | inr refused ↦
          let failed : outcome.failed ≡ true = rw (some_sent, refused) refl in
          absurd (cc (h, failed))
    ]
    | inr nothing ↦ rw nothing (same-IsSettled nothing)
  ]

module _ (F : Floats) {Geometry : Type 0} (geometry_of : String → Option Geometry)
    (geometry_supported : Geometry → Bool) (area_of : Geometry → F.Float)
    (golbat : Option (Geometry → ℤ → Option ℤ)) (cfg : RefreshNestConfig F) (now : Time)
    (db_ok : NestPartialUpdate F → Bool) (nest : Nest F) where
  abbrev pub refreshed : Refreshed F
  refreshed = refresh_nest F geometry_of geometry_supported area_of golbat cfg now db_ok nest

  -- The verdict of the filters on what was measured.
  unfoldable pub reason : Option String
  reason =
      let (geometry, m2, area_updated, known) =
        measure F geometry_of geometry_supported area_of golbat (geometry_of nest.polygon) nest in
      discarded_reason F cfg.filters m2 (query_spawnpoints F cfg golbat geometry m2 known)

  pub refresh_nest-IsSettled : refreshed.failed ≡ false → IsSettled reason refreshed.nest
  unfolding refresh_nest reason
  refresh_nest-IsSettled h = send_changes-IsSettled F now db_ok nest _ _ _ _ h
