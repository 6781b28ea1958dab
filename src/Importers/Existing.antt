-- ===== src/Importers/Existing.antt =====
-- What importing does to a row that exists, importers/db.go.
use fletchling.Prelude.{
  ◌≡◌, refl, sym, ap, ◌∙◌, inl, inr, ℤ, pos, int_eq, string_eq, true, false, Option, none, some,
  List, [], ◌∷◌, String, ◌==◌, if◌then◌else◌, Bool-cases,
}
use fletchling.Prelude.Float.{Floats}
use fletchling.Prelude.Map.{lookup, insert, lookup-insert}
use fletchling.DbStore
use fletchling.Prelude.Int.{eqb_ℤ}
use fletchling.Geo.{Feature, Parsed, ok, err, NameAndId, name_and_int_id_from_feature}
use fletchling.Importers.{
  Failures, Table, insert_or_update_nest, with_existing, with_state, with_time, feature_row,
  or_unverified, imported_row, import_named, import_parsed, import_feature, import_features,
  true_or_false, int_or_0,
}
use fletchling.Importers.Settled.{IsSettled, AllSettled, import_feature-AllSettled}

module _ (F : Floats) where
  -- What a row has from before, as far as an import should not change it.
  pub record Keeps (old new : DbStore.Nest F) : Type 0 where
    pub name : new.name ≡ old.name
    pub active : new.active ≡ old.active
    pub discarded : new.discarded ≡ old.discarded
    pub spawnpoints : new.spawnpoints ≡ old.spawnpoints
    pub pokemon_id : new.pokemon_id ≡ old.pokemon_id
    pub pokemon_form : new.pokemon_form ≡ old.pokemon_form
    pub pokemon_avg : new.pokemon_avg ≡ old.pokemon_avg
    pub pokemon_ratio : new.pokemon_ratio ≡ old.pokemon_ratio
    pub pokemon_count : new.pokemon_count ≡ old.pokemon_count

  Keeps-refl : (row : DbStore.Nest F) → Keeps row row
  Keeps-refl row = record {
    name = refl;
    active = refl;
    discarded = refl;
    spawnpoints = refl;
    pokemon_id = refl;
    pokemon_form = refl;
    pokemon_avg = refl;
    pokemon_ratio = refl;
    pokemon_count = refl;
  }

  Keeps-trans : (a b c : DbStore.Nest F) → Keeps a b → Keeps b c → Keeps a c
  Keeps-trans a b c h k = record {
    name = k.name ∙ h.name;
    active = k.active ∙ h.active;
    discarded = k.discarded ∙ h.discarded;
    spawnpoints = k.spawnpoints ∙ h.spawnpoints;
    pokemon_id = k.pokemon_id ∙ h.pokemon_id;
    pokemon_form = k.pokemon_form ∙ h.pokemon_form;
    pokemon_avg = k.pokemon_avg ∙ h.pokemon_avg;
    pokemon_ratio = k.pokemon_ratio ∙ h.pokemon_ratio;
    pokemon_count = k.pokemon_count ∙ h.pokemon_count;
  }

  -- The four columns of a row that an update takes from the imported one.
  abbrev Takes : DbStore.Nest F → DbStore.Nest F → Type 0
  Takes old row =
      (row.name ≡ old.name)
      × (row.active ≡ old.active)
      × (row.discarded ≡ old.discarded)
      × (row.spawnpoints ≡ old.spawnpoints)

  with_existing-Takes : (old row : DbStore.Nest F) → Takes old (with_existing F (some old) row)
  unfolding with_existing
  with_existing-Takes old row = elim (Bool-cases (true_or_false old.active)) [
    | inl on ↦ rw on (refl, refl, refl, refl)
    | inr off ↦ rw off (refl, refl, refl, refl)
  ]

  with_state-Takes :
      (old row : DbStore.Nest F) → IsSettled F old → Takes old row → Takes old (with_state F row)
  unfolding with_state
  with_state-Takes old row (inl (on, no_reason)) (name, active, discarded, spawnpoints) =
      let test : true_or_false row.active ≡ true = ap true_or_false (active ∙ on) in
      rw test (name, active, sym no_reason, spawnpoints)
  with_state-Takes old row (inr (off, reason, e)) (name, active, discarded, spawnpoints) =
      let test : true_or_false row.active ≡ false = ap true_or_false (active ∙ off) in
      rw test (name, sym off, ap (or_unverified F) (discarded ∙ e) ∙ sym e, spawnpoints)

  with_time-Takes :
      (now : ℤ) (old row : DbStore.Nest F) → Takes old row → Takes old (with_time F now row)
  unfolding with_time
  with_time-Takes now old row h = elim (Bool-cases (int_or_0 row.updated == pos 0)) [
    | inl unset ↦ rw unset h
    | inr set ↦ rw set h
  ]

  insert_or_update_nest-Keeps :
      (row old : DbStore.Nest F)
      → Takes old row
      → Keeps old (insert_or_update_nest F row (some old))
  unfolding insert_or_update_nest
  insert_or_update_nest-Keeps row old (name, active, discarded, spawnpoints) = record {
    name = name;
    active = active;
    discarded = discarded;
    spawnpoints = spawnpoints;
    pokemon_id = refl;
    pokemon_form = refl;
    pokemon_avg = refl;
    pokemon_ratio = refl;
    pokemon_count = refl;
  }

  -- The rows of a table that another keeps.
  abbrev pub KeepsRows : Table F → Table F → Type 0
  KeepsRows before after =
      (id : ℤ) (old : DbStore.Nest F)
      → lookup id before ≡ some old
      → (new : DbStore.Nest F) × (lookup id after ≡ some new) × Keeps old new

  insert-KeepsRows :
      (id : ℤ) (row : DbStore.Nest F) (table : Table F)
      → ((old : DbStore.Nest F) → lookup id table ≡ some old → Keeps old row)
      → KeepsRows table (insert id row table)
  insert-KeepsRows id row table keeps k old e =
      let at_k : lookup k (insert id row table) ≡ (if id == k then some row else lookup k table) =
        lookup-insert id k row table in
      elim (Bool-cases (id == k)) [
        | inl here ↦
            let same = (int_eq.same_iff id k).0 here in
            (row, rw here at at_k, keeps old (ap (λ i. lookup i table) same ∙ e))
        | inr elsewhere ↦ (old, (rw elsewhere at at_k) ∙ e, Keeps-refl old)
      ]

  KeepsRows-refl : (table : Table F) → KeepsRows table table
  KeepsRows-refl table id old e = (old, e, Keeps-refl old)

  module _ {Geometry : Type 0} (area_of : Geometry → F.Float)
      (label_point : Geometry → F.Float × F.Float) (json : Geometry → String) (now : ℤ) where
    written-Keeps :
        (named : NameAndId) (g : Geometry) (o : Option (DbStore.Nest F)) (old : DbStore.Nest F)
        → IsSettled F old
        → o ≡ some old
        → Keeps old
            (insert_or_update_nest F (imported_row F area_of label_point json now named g o) o)
    unfolding imported_row
    written-Keeps named g o old settled e =
        let row = feature_row F area_of label_point json named g in
        let taken = with_existing F (some old) row in
        rw e (
          insert_or_update_nest-Keeps (with_time F now (with_state F taken)) old (
            with_time-Takes now old (with_state F taken)
              (with_state-Takes old taken settled (with_existing-Takes old row))))

    import_named-KeepsRows :
        (named : NameAndId) (g : Geometry) (fails : Failures) (table : Table F)
        → AllSettled F table
        → fails.reading ≡ false
        → KeepsRows table (import_named F area_of label_point json now named g fails table)
    unfolding import_named
    import_named-KeepsRows named g fails table all read =
        let old = lookup named.nest_id table in
        elim (Bool-cases fails.encoding) [
          | inl bad ↦ rw bad (KeepsRows-refl table)
          | inr good ↦ rw good (elim (Bool-cases fails.writing) [
            | inl refused ↦ rw refused (KeepsRows-refl table)
            | inr taken ↦
                rw (taken, read)
                  (insert-KeepsRows named.nest_id
                    (insert_or_update_nest F
                      (imported_row F area_of label_point json now named g old) old)
                    table (λ row e. written-Keeps named g old row (all named.nest_id row e) e))
          ])
        ]

    parsed-KeepsRows :
        (g : Geometry) (fails : Failures) (table : Table F) (p : Parsed NameAndId)
        → AllSettled F table
        → fails.reading ≡ false
        → KeepsRows table (import_parsed F area_of label_point json now g fails table p)
    unfolding import_parsed
    parsed-KeepsRows g fails table (err e) all read = KeepsRows-refl table
    parsed-KeepsRows g fails table (ok named) all read =
        import_named-KeepsRows named g fails table all read

    abbrev pub AllRead : List (Feature Geometry × Failures) → Type 0
    AllRead [] = Unit
    AllRead ((feature, fails) ∷ more) = (fails.reading ≡ false) × AllRead more

    -- If every row of the table is active with no reason to be discarded, or not active with one,
    -- and no row fails to be read, then after any features are imported every row that was there
    -- is there still, with its name, its activity, its reason to be discarded, its spawnpoints
    -- and the five columns of its pokemon unchanged.
    pub import_features-KeepsRows :
        (features : List (Feature Geometry × Failures)) (table : Table F)
        → AllSettled F table
        → AllRead features
        → KeepsRows table (import_features F area_of label_point json now features table)
    unfolding import_features import_feature
    import_features-KeepsRows [] table all read = KeepsRows-refl table
    import_features-KeepsRows ((feature, fails) ∷ more) table all (read, reads) = λ id old e.
        let after = import_feature F area_of label_point json now feature fails table in
        let (mid, at_mid, h) =
          parsed-KeepsRows feature.geometry fails table (name_and_int_id_from_feature feature) all
            read id old e in
        let (new, at_new, k) =
          import_features-KeepsRows more after
            (import_feature-AllSettled F area_of label_point json now feature fails table all) reads
            id mid at_mid in
        (new, at_new, Keeps-trans old mid new h k)

    -- If the row of a feature that is imported exists but cannot be read, and nothing else fails,
    -- then the row is made not active and unverified, its name is that of the feature and its
    -- spawnpoints are unknown, while the id of its pokemon stays.
    pub import_named_unread :
        (named : NameAndId) (g : Geometry) (table : Table F) (old : DbStore.Nest F)
        → lookup named.nest_id table ≡ some old
        → (new : DbStore.Nest F) × (lookup named.nest_id (
              import_named F area_of label_point json now named g
                (record { reading = true; encoding = false; writing = false })
                table)
            ≡ some new)
          × (new.active ≡ some false)
          × (new.discarded ≡ some "unverified")
          × (new.name ≡ named.name)
          × (new.spawnpoints ≡ none)
          × (new.pokemon_id ≡ old.pokemon_id)
    unfolding import_named imported_row insert_or_update_nest with_existing with_state with_time
        feature_row eqb_ℤ
    import_named_unread named g table old e =
        let row = imported_row F area_of label_point json now named g none in
        let new = insert_or_update_nest F row (some old) in
        let at_id : lookup named.nest_id (
              insert named.nest_id (insert_or_update_nest F row (lookup named.nest_id table)) table)
            ≡ (if named.nest_id == named.nest_id
                then some (insert_or_update_nest F row (lookup named.nest_id table))
                else lookup named.nest_id table) =
          lookup-insert named.nest_id named.nest_id
            (insert_or_update_nest F row (lookup named.nest_id table)) table in
        let same = (int_eq.same_iff named.nest_id named.nest_id).1 refl in
        (
          new,
          (rw same at at_id) ∙ ap (λ o. some (insert_or_update_nest F row o)) e,
          refl,
          refl,
          refl,
          refl,
          refl,
        )
