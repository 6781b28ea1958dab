-- ===== src/Areas/Loader/Served.antt =====
-- Which areas areas/loader.go serves.
use fletchling.Prelude.{
  ℕ, ◌≡◌, refl, sym, subst, ◌∙◌, ◌⊎◌, inl, inr, Bool, false, Option, none, some, List, [], ◌∷◌,
  String, ◌==◌, string_eq, if◌then◌else◌, Outcome, done, panic, Bool-cases,
}
use fletchling.Prelude.Choice.{or_else, or_else-pass, or_else-none}
use fletchling.Prelude.Float.{Floats}
use fletchling.Prelude.Map.{Map, lookup, lookup-insert, lookup-nil}
use fletchling.Geo.{Feature}
use fletchling.Geo.Fences.{Has}
use fletchling.Geo.Files.{Point, GeofencesFileEntry}
use fletchling.Areas.Loader.{
  LoaderError, name_of, add_area, areas_by_name, AreasLoader, set_areas, area_of_cache,
  update_cache, Areas, World, Fetched, fetched, failed, fetch, State, store_areas, stored,
  reload_areas, get_areas_cache, is_empty, state_of,
}

abbrev pub is_named : String → Option String → Bool
is_named area_name none = false
is_named area_name (some name) = name == area_name

module _ {Geometry : Type 0} where
  -- The last area with the name.
  unfoldable pub last_area : String → List (Feature Geometry) → Option (Feature Geometry)
  unfolding name_of
  last_area area_name [] = none
  last_area area_name (area ∷ areas) =
      or_else (last_area area_name areas)
        (if is_named area_name (name_of area) then some area else none)

  lookup-add_area :
      (area_name : String) (name : Option String) (area : Feature Geometry)
      (m : Map String (Feature Geometry))
      → lookup area_name (add_area name area m)
        ≡ (if is_named area_name name then some area else lookup area_name m)
  unfolding add_area
  lookup-add_area area_name none area m = refl
  lookup-add_area area_name (some name) area m = lookup-insert name area_name area m

  areas_by_name-last :
      (area_name : String) (areas : List (Feature Geometry)) (m : Map String (Feature Geometry))
      → lookup area_name (areas_by_name areas m)
        ≡ or_else (last_area area_name areas) (lookup area_name m)
  unfolding areas_by_name last_area
  areas_by_name-last area_name [] m = refl
  areas_by_name-last area_name (area ∷ areas) m =
      areas_by_name-last area_name areas (add_area (name_of area) area m)
      ∙ rw (lookup-add_area area_name (name_of area) area m) (
          or_else-pass (last_area area_name areas) (lookup area_name m)
            (is_named area_name (name_of area)) area)

  -- An area is found under its name, the last one if there are more.
  pub area_of_cache-last :
      (area_name : String) (areas : List (Feature Geometry))
      → area_of_cache area_name (set_areas areas) ≡ last_area area_name areas
  unfolding set_areas area_of_cache
  area_of_cache-last area_name areas =
      areas_by_name-last area_name areas []
      ∙ rw (lookup-nil {V = Feature Geometry} area_name) (or_else-none (last_area area_name areas))

module _ (F : Floats) (collection : List ℕ → Option (Option (List (Feature (List (Point F))))))
    (geofences : List ℕ → Option (List (GeofencesFileEntry F))) where
  abbrev pub Loading : Type 0
  Loading = State F collection geofences

  abbrev pub Worlds : Type 0
  Worlds = List (World F collection geofences)

  -- The same loader but for its areas, the same disk, and the areas of before or all those of a good
  -- answer of one of the worlds.
  pub record IsServed (worlds : Worlds) (before after : Loading) : Type 0 where
    pub disk : after.1 ≡ before.1
    pub filename : after.0.filename ≡ before.0.filename
    pub koji_project : after.0.koji_project ≡ before.0.koji_project
    pub cache_filename : after.0.cache_filename ≡ before.0.cache_filename
    pub served :
        (after.0.areas_cache ≡ before.0.areas_cache)
        ⊎ ((world : World F collection geofences) × Has world worlds
            × (areas : Areas F collection geofences) × (fetch F collection geofences world before.0
                ≡ done (fetched areas))
            × (after.0.areas_cache ≡ some (set_areas areas)))

  -- What a loader is led to by reloads and by questions, with what the world answered at each of
  -- them, the last one first.
  pub data Reach (start : Loading) : Worlds → Loading → Type 0 where
    started : Reach start [] start
    reloaded :
        (worlds : Worlds) (s s' : Loading) (world : World F collection geofences)
        (e : Option LoaderError)
        → Reach start worlds s
        → ◌≡◌ {A = Outcome (Option LoaderError × Loading)}
            (reload_areas F collection geofences world s)
            (done (e, s'))
        → Reach start (world ∷ worlds) s'
    asked :
        (worlds : Worlds) (s s' : Loading) (world : World F collection geofences)
        → Reach start worlds s
        → get_areas_cache F collection geofences world s ≡ done s'
        → Reach start (world ∷ worlds) s'

  fetch-same :
      (world : World F collection geofences) (a b : AreasLoader (List (Point F)))
      → a.filename ≡ b.filename
      → a.koji_project ≡ b.koji_project
      → fetch F collection geofences world a ≡ fetch F collection geofences world b
  unfolding fetch
  fetch-same world a b file project = rw (file, project) refl

  unchanged : (worlds : Worlds) (s : Loading) → IsServed worlds s s
  unchanged worlds s = record {
    disk = refl;
    filename = refl;
    koji_project = refl;
    cache_filename = refl;
    served = inl refl;
  }

  store_areas-IsServed :
      (world : World F collection geofences) (areas : Areas F collection geofences) (s : Loading)
      → fetch F collection geofences world s.0 ≡ done (fetched areas)
      → s.0.cache_filename ≡ ""
      → IsServed (world ∷ []) s (store_areas F collection geofences world areas s)
  unfolding store_areas update_cache
  store_areas-IsServed world areas s from uncached = record {
    disk = rw uncached refl;
    filename = refl;
    koji_project = refl;
    cache_filename = refl;
    served = inr (world, inl refl, areas, from, refl);
  }

  stored-IsServed :
      (world : World F collection geofences) (s s' : Loading) (e : Option LoaderError)
      (answer : Outcome (Fetched F collection geofences))
      → fetch F collection geofences world s.0 ≡ answer
      → s.0.cache_filename ≡ ""
      → ◌≡◌ {A = Outcome (Option LoaderError × Loading)}
          (stored F collection geofences world s answer)
          (done (e, s'))
      → IsServed (world ∷ []) s s'
  unfolding stored
  stored-IsServed world s s' e (panic _) from uncached h = cc
  stored-IsServed world s s' e (done (failed _)) from uncached h =
      let same : s ≡ s' = cc in subst (IsServed (world ∷ []) s) same (unchanged (world ∷ []) s)
  stored-IsServed world s s' e (done (fetched areas)) from uncached h =
      let same : store_areas F collection geofences world areas s ≡ s' = cc in
      subst (IsServed (world ∷ []) s) same (store_areas-IsServed world areas s from uncached)

  reload_areas-IsServed :
      (world : World F collection geofences) (s s' : Loading) (e : Option LoaderError)
      → s.0.cache_filename ≡ ""
      → ◌≡◌ {A = Outcome (Option LoaderError × Loading)}
          (reload_areas F collection geofences world s)
          (done (e, s'))
      → IsServed (world ∷ []) s s'
  unfolding reload_areas
  reload_areas-IsServed world s s' e uncached h =
      stored-IsServed world s s' e (fetch F collection geofences world s.0) refl uncached h

  state_of-done :
      (r : Outcome (Option LoaderError × Loading)) (s' : Loading)
      → state_of F collection geofences r ≡ done s'
      → (e : Option LoaderError) × ◌≡◌ {A = Outcome (Option LoaderError × Loading)} r (done (e, s'))
  state_of-done (panic _) s' h = cc
  state_of-done (done (e, s)) s' h = (e, cc)

  get_areas_cache-IsServed :
      (world : World F collection geofences) (s s' : Loading)
      → s.0.cache_filename ≡ ""
      → get_areas_cache F collection geofences world s ≡ done s'
      → IsServed (world ∷ []) s s'
  unfolding get_areas_cache
  get_areas_cache-IsServed world s s' uncached h = elim (Bool-cases (is_empty s.0.areas_cache)) [
    | inl empty ↦
        let (e, back) =
          state_of-done (reload_areas F collection geofences world s) s' (rw empty at h) in
        reload_areas-IsServed world s s' e uncached back
    | inr full ↦
        let same : s ≡ s' = (let h' = rw full at h in cc) in
        subst (IsServed (world ∷ []) s) same (unchanged (world ∷ []) s)
  ]

  IsServed-trans :
      (worlds : Worlds) (world : World F collection geofences) (a b c : Loading)
      → IsServed worlds a b
      → IsServed (world ∷ []) b c
      → IsServed (world ∷ worlds) a c
  IsServed-trans worlds world a b c ab bc = record {
    disk = bc.disk ∙ ab.disk;
    filename = bc.filename ∙ ab.filename;
    koji_project = bc.koji_project ∙ ab.koji_project;
    cache_filename = bc.cache_filename ∙ ab.cache_filename;
    served = elim bc.served [
      | inl same ↦ elim ab.served [
        | inl before ↦ inl (same ∙ before)
        | inr (w, asked_before, areas, from, it) ↦ inr (w, inr asked_before, areas, from, same ∙ it)
      ]
      | inr (w, last, areas, from, it) ↦ inr (
        w,
        elim last [ inl now ↦ inl now | inr never ↦ elim never [ ] ],
        areas,
        fetch-same w a.0 b.0 (sym ab.filename) (sym ab.koji_project) ∙ from,
        it,
      )
    ];
  }

  -- With no file for the cache, only a good answer changes what is served.
  pub Reach-IsServed :
      (start s : Loading) (worlds : Worlds)
      → start.0.cache_filename ≡ ""
      → Reach start worlds s
      → IsServed worlds start s
  Reach-IsServed start s _ uncached started = unchanged [] start
  Reach-IsServed start s _ uncached (reloaded worlds b _ world e way h) =
      let before = Reach-IsServed start b worlds uncached way in
      IsServed-trans worlds world start b s before
        (reload_areas-IsServed world b s e (before.cache_filename ∙ uncached) h)
  Reach-IsServed start s _ uncached (asked worlds b _ world way h) =
      let before = Reach-IsServed start b worlds uncached way in
      IsServed-trans worlds world start b s before
        (get_areas_cache-IsServed world b s (before.cache_filename ∙ uncached) h)
