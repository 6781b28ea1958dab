-- ===== src/Importers/Koji/Once.antt =====
-- importers/koji.go makes no second geofence for a nest that has one.
use mathlib.Core.Option.{some-injective}
use fletchling.Prelude.{
  ℤ, ◌≡◌, refl, ap, subst, Bool, false, Option, none, some, List, [], ◌∷◌, All, String, ◌==◌,
  int_eq, arith, inl, inr, Bool-cases, Option-cases,
}
use fletchling.Prelude.Time.{Time}
use fletchling.Prelude.Map.{lookup, lookup-insert}
use fletchling.Geo
use fletchling.Geo.{Feature, NameAndId, Parsed, name_and_int_id_from_feature}
use fletchling.Koji.{Geofence, Codec}
use fletchling.Koji.Requests.{Request, Reply, State, Run, ok, err}
use fletchling.Koji.Geofences.{create_geofence}
use fletchling.Importers.Koji.{
  Known, prepared, safe_name, noted, import_new, import_parsed, import_feature, import_loop,
}

module _ {Geometry B W : Type 0} (codec : Codec Geometry B)
    (serve : Request B → W → Option (Reply B) × W) (now : Time) (geo_type : Geometry → String)
    (label_text : Geometry → String) (create_properties : Bool) (projects : List ℤ) where
  -- The maps, and the functions that change them, of this import.
  abbrev pub Maps : Type 0
  Maps = Known codec serve now geo_type label_text create_properties

  abbrev pub one : Feature Geometry → Maps → State W → Maps × State W
  unfolding import_feature
  one = import_feature codec serve now geo_type label_text create_properties projects

  abbrev pub all : List (Feature Geometry) → Maps → State W → Maps × State W
  unfolding import_loop
  all = import_loop codec serve now geo_type label_text create_properties projects

  noted-lookup :
      (nest_id id : ℤ) (g : Geofence Geometry) (known : Maps) (r : Run W (Geofence Geometry))
      → lookup nest_id known.by_nest_id ≡ none
      → lookup id known.by_nest_id ≡ some g
      → lookup id
          (noted codec serve now geo_type label_text create_properties nest_id known r).0.by_nest_id
        ≡ some g
  noted-lookup nest_id id g known (err _ _) absent h = h
  noted-lookup nest_id id g known (ok geofence _) absent h =
      grind (arith, lookup-insert nest_id id geofence known.by_nest_id, int_eq.same_iff nest_id id)

  import_new-lookup :
      (feature : Feature Geometry) (f : NameAndId) (found : Option (Geofence Geometry)) (id : ℤ)
      (g : Geofence Geometry) (known : Maps) (s : State W)
      → lookup f.nest_id known.by_nest_id ≡ found
      → lookup id known.by_nest_id ≡ some g
      → lookup id
          (import_new codec serve now geo_type label_text create_properties projects feature f found
            known s).0.by_nest_id
        ≡ some g
  unfolding import_new
  import_new-lookup feature f (some _) id g known s here h = h
  import_new-lookup feature f none id g known s here h = noted-lookup f.nest_id id g known _ here h

  import_parsed-lookup :
      (feature : Feature Geometry) (parsed : Parsed NameAndId) (id : ℤ) (g : Geofence Geometry)
      (known : Maps) (s : State W)
      → lookup id known.by_nest_id ≡ some g
      → lookup id
          (import_parsed codec serve now geo_type label_text create_properties projects feature
            parsed known s).0.by_nest_id
        ≡ some g
  unfolding import_parsed import_new
  import_parsed-lookup feature (Geo.err _) id g known s h = h
  import_parsed-lookup feature (Geo.ok f) id g known s h =
      import_new-lookup feature f _ id g known s refl h

  import_loop-lookup :
      (features : List (Feature Geometry)) (id : ℤ) (g : Geofence Geometry) (known : Maps)
      (s : State W)
      → lookup id known.by_nest_id ≡ some g
      → lookup id (all features known s).0.by_nest_id ≡ some g
  unfolding import_loop
  import_loop-lookup [] id g known s h = h
  import_loop-lookup (feature ∷ features) id g known s h =
      import_loop-lookup features id g (one feature known s).0 (one feature known s).1 (
        unfold import_feature in
        (import_parsed-lookup feature (name_and_int_id_from_feature feature) id g known s h))

  -- The nest id of a feature of which CreateGeofence makes a geofence.
  abbrev made_by : ℤ → Run W (Geofence Geometry) → Option ℤ
  made_by nest_id (ok _ _) = some nest_id
  made_by nest_id (err _ _) = none

  abbrev made_new :
      Feature Geometry → NameAndId → Option (Geofence Geometry) → Maps → State W → Option ℤ
  unfolding create_geofence prepared safe_name
  made_new feature f (some _) known s = none
  made_new feature f none known s =
      let (geofence, s') =
        prepared codec serve now geo_type label_text create_properties projects feature
          (safe_name f.name) known s in
      made_by f.nest_id (create_geofence codec serve now geofence s')

  abbrev made_parsed : Feature Geometry → Parsed NameAndId → Maps → State W → Option ℤ
  unfolding made_new lookup
  made_parsed feature (Geo.err _) known s = none
  made_parsed feature (Geo.ok f) known s =
      made_new feature f (lookup f.nest_id known.by_nest_id) known s

  abbrev and_made : Option ℤ → List ℤ → List ℤ
  and_made none ids = ids
  and_made (some id) ids = id ∷ ids

  -- The nest ids of the geofences that an import makes, in order.
  unfoldable pub made_ids : List (Feature Geometry) → Maps → State W → List ℤ
  unfolding made_parsed name_and_int_id_from_feature one
  made_ids [] known s = []
  made_ids (feature ∷ features) known s =
      and_made (made_parsed feature (name_and_int_id_from_feature feature) known s)
        (made_ids features (one feature known s).0 (one feature known s).1)

  abbrev pub AreNew : Maps → List ℤ → Type 0
  AreNew known ids = All (λ id. lookup id known.by_nest_id ≡ none) ids

  abbrev pub AreKnown : Maps → List ℤ → Type 0
  AreKnown known ids =
      All (λ id. (g : Geofence Geometry) × (lookup id known.by_nest_id ≡ some g)) ids

  abbrev pub AreDistinct : List ℤ → Type 0
  AreDistinct [] = Unit {0}
  AreDistinct (id ∷ ids) = All (λ other. (other == id) ≡ false) ids × AreDistinct ids

  noted_made :
      (nest_id id : ℤ) (known : Maps) (r : Run W (Geofence Geometry))
      → made_by nest_id r ≡ some id
      → (nest_id ≡ id)
        × (g : Geofence Geometry) × (lookup id
              (noted codec serve now geo_type label_text create_properties nest_id known
                r).0.by_nest_id
            ≡ some g)
  noted_made nest_id id known (err _ _) h = cc
  noted_made nest_id id known (ok geofence _) h =
      let same : nest_id ≡ id = some-injective nest_id id h in
      (
        same,
        geofence,
        grind (
          arith,
          lookup-insert nest_id id geofence known.by_nest_id,
          int_eq.same_iff nest_id id,
          same,
        ),
      )

  made_new_known :
      (feature : Feature Geometry) (f : NameAndId) (found : Option (Geofence Geometry)) (id : ℤ)
      (known : Maps) (s : State W)
      → lookup f.nest_id known.by_nest_id ≡ found
      → made_new feature f found known s ≡ some id
      → (lookup id known.by_nest_id ≡ none)
        × (g : Geofence Geometry) × (lookup id
              (import_new codec serve now geo_type label_text create_properties projects feature f
                found known s).0.by_nest_id
            ≡ some g)
  unfolding made_new import_new
  made_new_known feature f (some _) id known s here h = cc
  made_new_known feature f none id known s here h =
      let (same, g, there) = noted_made f.nest_id id known _ h in
      (subst (λ k. lookup k known.by_nest_id ≡ none) same here, g, there)

  made_parsed_known :
      (feature : Feature Geometry) (parsed : Parsed NameAndId) (id : ℤ) (known : Maps) (s : State W)
      → made_parsed feature parsed known s ≡ some id
      → (lookup id known.by_nest_id ≡ none)
        × (g : Geofence Geometry) × (lookup id
              (import_parsed codec serve now geo_type label_text create_properties projects feature
                parsed known s).0.by_nest_id
            ≡ some g)
  unfolding made_parsed made_new import_parsed import_new
  made_parsed_known feature (Geo.err _) id known s h = cc
  made_parsed_known feature (Geo.ok f) id known s h = made_new_known feature f _ id known s refl h

  -- What is new after a feature was new before it.
  AreNew-before :
      (feature : Feature Geometry) (known : Maps) (s : State W) (ids : List ℤ)
      → AreNew (one feature known s).0 ids
      → AreNew known ids
  unfolding import_feature
  AreNew-before feature known s [] h = tt
  AreNew-before feature known s (id ∷ ids) (here, h) = (
    elim (Option-cases (lookup id known.by_nest_id)) [
      | inl absent ↦ absent
      | inr (g, present) ↦ absurd (
          cc (
            import_parsed-lookup feature (name_and_int_id_from_feature feature) id g known s
                present,
            here,
          ))
    ],
    AreNew-before feature known s ids h,
  )

  new_differ :
      (known : Maps) (id : ℤ) (g : Geofence Geometry) (ids : List ℤ)
      → lookup id known.by_nest_id ≡ some g
      → AreNew known ids
      → All (λ other. (other == id) ≡ false) ids
  new_differ known id g [] present h = tt
  new_differ known id g (other ∷ ids) present (here, h) = (
    elim (Bool-cases (other == id)) [
      | inl same ↦
          let e : other ≡ id = (int_eq.same_iff other id).0 same in
          absurd (cc (here, present, ap (λ k. lookup k known.by_nest_id) e))
      | inr differ ↦ differ
    ],
    new_differ known id g ids present h,
  )

  made_ids-step :
      (feature : Feature Geometry) (known after : Maps) (s : State W) (ids : List ℤ)
      (made : Option ℤ)
      → made_parsed feature (name_and_int_id_from_feature feature) known s ≡ made
      → ((id : ℤ) (g : Geofence Geometry)
          → lookup id (one feature known s).0.by_nest_id ≡ some g
          → lookup id after.by_nest_id ≡ some g)
      → AreNew (one feature known s).0 ids
      → AreDistinct ids
      → AreKnown after ids
      → AreNew known (and_made made ids)
        × AreDistinct (and_made made ids)
        × AreKnown after (and_made made ids)
  unfolding import_feature
  made_ids-step feature known after s ids none e keeps new differ here =
      (AreNew-before feature known s ids new, differ, here)
  made_ids-step feature known after s ids (some id) e keeps new differ here =
      let (absent, g, present) =
        made_parsed_known feature (name_and_int_id_from_feature feature) id known s e in
      (
        (absent, AreNew-before feature known s ids new),
        (new_differ (one feature known s).0 id g ids present new, differ),
        ((g, keeps id g present), here),
      )

  pub import_loop-once :
      (features : List (Feature Geometry)) (known : Maps) (s : State W)
      → AreNew known (made_ids features known s)
        × AreDistinct (made_ids features known s)
        × AreKnown (all features known s).0 (made_ids features known s)
  unfolding made_ids import_loop
  import_loop-once [] known s = (tt, tt, tt)
  import_loop-once (feature ∷ features) known s =
      let (known', s') = one feature known s in
      let (new, differ, here) = import_loop-once features known' s' in
      made_ids-step feature known (all features known' s').0 s (made_ids features known' s') _ refl
        (λ id g h. import_loop-lookup features id g known' s' h) new differ here
