-- ===== src/Importers/Settled.antt =====
-- What importing into the database keeps, importers/db.go.
use mathlib.Core.Option.{some-injective}
use fletchling.Prelude.{
  ◌≡◌, refl, sym, subst, ◌∙◌, ◌⊎◌, inl, inr, ℤ, pos, int_eq, string_eq, Bool, true, false, Option,
  none, some, List, [], ◌∷◌, String, ◌==◌, if◌then◌else◌, Bool-cases,
}
use fletchling.Prelude.Float.{Floats}
use fletchling.Prelude.Map.{lookup, insert, lookup-insert}
use fletchling.DbStore
use fletchling.Geo.{Feature, Parsed, ok, err, NameAndId, name_and_int_id_from_feature}
use fletchling.Importers.{
  Failures, Table, insert_or_update_nest, with_existing, with_state, with_time, or_unverified,
  feature_row, imported_row, import_named, import_parsed, import_feature, import_features,
  true_or_false, int_or_0,
}

module _ (F : Floats) where
  -- A row is active and has no reason to be discarded, or it is not active and has one.
  abbrev pub IsSettled : DbStore.Nest F → Type 0
  IsSettled row =
      ((row.active ≡ some true) × (row.discarded ≡ none))
      ⊎ ((row.active ≡ some false) × (reason : String) × (row.discarded ≡ some reason))

  abbrev pub AllSettled : Table F → Type 0
  AllSettled table = (id : ℤ) (row : DbStore.Nest F) → lookup id table ≡ some row → IsSettled row

  or_unverified-some : (o : Option String) → (reason : String) × (or_unverified F o ≡ some reason)
  or_unverified-some none = ("unverified", refl)
  or_unverified-some (some reason) = (reason, refl)

  active_of_true : (a : Option Bool) → true_or_false a ≡ true → a ≡ some true
  active_of_true none h = cc
  active_of_true (some true) h = refl
  active_of_true (some false) h = cc

  with_state-IsSettled : (row : DbStore.Nest F) → IsSettled (with_state F row)
  unfolding with_state
  with_state-IsSettled row = elim (Bool-cases (true_or_false row.active)) [
    | inl on ↦ rw on (inl (active_of_true row.active on, refl))
    | inr off ↦ let (reason, e) = or_unverified-some row.discarded in rw off (inr (refl, reason, e))
  ]

  with_time-IsSettled :
      (now : ℤ) (row : DbStore.Nest F) → IsSettled row → IsSettled (with_time F now row)
  unfolding with_time
  with_time-IsSettled now row h = elim (Bool-cases (int_or_0 row.updated == pos 0)) [
    | inl unset ↦ rw unset h
    | inr set ↦ rw set h
  ]

  insert_or_update_nest-IsSettled :
      (row : DbStore.Nest F) (old : Option (DbStore.Nest F))
      → IsSettled row
      → IsSettled (insert_or_update_nest F row old)
  unfolding insert_or_update_nest
  insert_or_update_nest-IsSettled row none h = h
  insert_or_update_nest-IsSettled row (some old) h = h

  insert-AllSettled :
      (id : ℤ) (row : DbStore.Nest F) (table : Table F)
      → IsSettled row
      → AllSettled table
      → AllSettled (insert id row table)
  insert-AllSettled id row table h all k found e =
      let at_k : lookup k (insert id row table) ≡ (if id == k then some row else lookup k table) =
        lookup-insert id k row table in
      elim (Bool-cases (id == k)) [
        | inl here ↦ subst IsSettled (some-injective row found (sym (rw here at at_k) ∙ e)) h
        | inr elsewhere ↦ all k found (sym (rw elsewhere at at_k) ∙ e)
      ]

  module _ {Geometry : Type 0} (area_of : Geometry → F.Float)
      (label_point : Geometry → F.Float × F.Float) (json : Geometry → String) (now : ℤ) where
    -- The row that is written.
    abbrev written :
        NameAndId → Geometry → Option (DbStore.Nest F) → Option (DbStore.Nest F) → DbStore.Nest F
    written named g existing old =
        insert_or_update_nest F (imported_row F area_of label_point json now named g existing) old

    written-IsSettled :
        (named : NameAndId) (g : Geometry) (existing old : Option (DbStore.Nest F))
        → IsSettled (written named g existing old)
    unfolding imported_row
    written-IsSettled named g existing old =
        let row = with_existing F existing (feature_row F area_of label_point json named g) in
        insert_or_update_nest-IsSettled (with_time F now (with_state F row)) old
          (with_time-IsSettled now (with_state F row) (with_state-IsSettled row))

    import_named-AllSettled :
        (named : NameAndId) (g : Geometry) (fails : Failures) (table : Table F)
        → AllSettled table
        → AllSettled (import_named F area_of label_point json now named g fails table)
    unfolding import_named
    import_named-AllSettled named g fails table all =
        let old = lookup named.nest_id table in
        let existing = if fails.reading then none else old in
        elim (Bool-cases fails.encoding) [
          | inl bad ↦ rw bad all
          | inr good ↦ rw good (elim (Bool-cases fails.writing) [
            | inl refused ↦ rw refused all
            | inr taken ↦ rw taken (
                insert-AllSettled named.nest_id (written named g existing old) table
                  (written-IsSettled named g existing old) all)
          ])
        ]

    parsed-AllSettled :
        (g : Geometry) (fails : Failures) (table : Table F) (p : Parsed NameAndId)
        → AllSettled table
        → AllSettled (import_parsed F area_of label_point json now g fails table p)
    unfolding import_parsed
    parsed-AllSettled g fails table (err e) all = all
    parsed-AllSettled g fails table (ok named) all = import_named-AllSettled named g fails table all

    pub import_feature-AllSettled :
        (feature : Feature Geometry) (fails : Failures) (table : Table F)
        → AllSettled table
        → AllSettled (import_feature F area_of label_point json now feature fails table)
    unfolding import_feature
    import_feature-AllSettled feature fails table all =
        parsed-AllSettled feature.geometry fails table (name_and_int_id_from_feature feature) all

    -- If every row of the table is active with no reason to be discarded, or not active with one,
    -- then that holds of every row after any features are imported, whatever fails.
    pub import_features-AllSettled :
        (features : List (Feature Geometry × Failures)) (table : Table F)
        → AllSettled table
        → AllSettled (import_features F area_of label_point json now features table)
    unfolding import_features
    import_features-AllSettled [] table all = all
    import_features-AllSettled ((feature, fails) ∷ more) table all =
        import_features-AllSettled more
          (import_feature F area_of label_point json now feature fails table)
          (import_feature-AllSettled feature fails table all)
