-- ===== src/Geo/Files.antt =====
-- LoadFeaturesFromFile of geo/geofences.go. The bytes of the file and the two decoders of JSON are
-- parameters.
use mathlib.Core.Bool.{◌&&◌, ◌||◌}
use fletchling.Prelude.{
  ℕ, ◌≡◌, ◌≤◌, ◌↔◌, ◌⊎◌, inl, inr, refl, subst, ap, ◌∙◌, Bool, true, Option, none, some, List, [],
  ◌∷◌, ◌++◌, map, length, ltb, eqb, All, if◌then◌else◌, string_eq, String, ◌==◌, Outcome, done,
  panic, bad_index, Bool-cases, arith,
}
use fletchling.Prelude.Float.{Floats}
use fletchling.Prelude.Map.{lookup}
use fletchling.Geo.{Feature, text, text_of}

pub data FileError : Type 0 where
  not_a_collection not_geofences missing_name bad_path unsupported : FileError

pub data Loaded (A : Type 0) : Type 0 where
  ok : A → Loaded A
  err : FileError → Loaded A

-- `for len(contents) > 0 && contents[0] == ' ' || contents[0] == '\t'`: the second test reads the
-- first byte also if there is none.
unfoldable pub skip_blanks : List ℕ → Outcome (List ℕ)
skip_blanks [] = panic bad_index
skip_blanks (c ∷ cs) =
    let rest = skip_blanks cs in if eqb c b' ' || eqb c 9 then rest else done (c ∷ cs)

module _ (F : Floats) where
  open F use {Float, eq}

  abbrev pub Point : Type 0
  Point = Float × Float

  pub record GeofencesFileEntry : Type 0 where
    pub name : String
    pub path : List Point

  abbrev pub same_point : Point → Point → Bool
  same_point a b = eq a.0 b.0 && eq a.1 b.1

  abbrev pub swap : Point → Point
  swap p = (p.1, p.0)

  abbrev pub last_point : Point → List Point → Point
  last_point p [] = p
  last_point p (q ∷ path) = last_point q path

  -- A path whose ends differ is closed with its first point.
  abbrev pub close_path : List Point → List Point
  close_path [] = []
  close_path (p ∷ path) = if same_point p (last_point p path) then p ∷ path else p ∷ path ++ p ∷ []

  unfoldable pub load_geofence : GeofencesFileEntry → Loaded (Feature (List Point))
  load_geofence geofence =
      if geofence.name == ""
      then err missing_name
      else if ltb (length geofence.path) 2
      then err bad_path
      else ok (record {
        properties = ("name", text geofence.name) ∷ [];
        geometry = map swap (close_path geofence.path);
      })

  abbrev and_feature :
      Loaded (Feature (List Point))
      → Loaded (List (Feature (List Point)))
      → Loaded (List (Feature (List Point)))
  and_feature (err e) _ = err e
  and_feature (ok f) (err e) = err e
  and_feature (ok f) (ok fs) = ok (f ∷ fs)

  unfoldable pub load_geofences : List GeofencesFileEntry → Loaded (List (Feature (List Point)))
  unfolding load_geofence
  load_geofences [] = ok []
  load_geofences (g ∷ gs) = and_feature (load_geofence g) (load_geofences gs)

  abbrev collection_or_error :
      Option (Option (List (Feature (List Point)))) → Loaded (List (Feature (List Point)))
  collection_or_error (some (some features)) = ok features
  collection_or_error _ = err not_a_collection

  abbrev geofences_or_error :
      Option (List GeofencesFileEntry) → Loaded (List (Feature (List Point)))
  unfolding load_geofences
  geofences_or_error none = err not_geofences
  geofences_or_error (some gs) = load_geofences gs

  module _ (collection : List ℕ → Option (Option (List (Feature (List Point)))))
      (geofences : List ℕ → Option (List GeofencesFileEntry)) where
    abbrev decode : List ℕ → Outcome (Loaded (List (Feature (List Point))))
    decode [] = panic bad_index
    decode (c ∷ cs) =
        if eqb c b'{'
        then done (collection_or_error (collection (c ∷ cs)))
        else if eqb c b'['
        then done (geofences_or_error (geofences (c ∷ cs)))
        else done (err unsupported)

    abbrev decode_rest : Outcome (List ℕ) → Outcome (Loaded (List (Feature (List Point))))
    decode_rest (panic e) = panic e
    decode_rest (done rest) = decode rest

    unfoldable pub load_features_from_file : List ℕ → Outcome (Loaded (List (Feature (List Point))))
    unfolding skip_blanks load_geofences
    load_features_from_file contents = decode_rest (skip_blanks contents)

  abbrev pub IsBlank : List ℕ → Type 0
  IsBlank cs = All (λ c. (eqb c b' ' || eqb c 9) ≡ true) cs

  skip_blanks_blank : (cs : List ℕ) → IsBlank cs → skip_blanks cs ≡ panic bad_index
  unfolding skip_blanks
  skip_blanks_blank [] h = refl
  skip_blanks_blank (c ∷ cs) h = rw h.0 (skip_blanks_blank cs h.1)

  -- What is left is not empty, or all was blank.
  skip_blanks-cases :
      (cs : List ℕ) → IsBlank cs ⊎ ((c : ℕ) × (rest : List ℕ) × (skip_blanks cs ≡ done (c ∷ rest)))
  unfolding skip_blanks
  skip_blanks-cases [] = inl tt
  skip_blanks-cases (c ∷ cs) = elim (Bool-cases (eqb c b' ' || eqb c 9)) [
    | inl blank ↦ elim (skip_blanks-cases cs) [
      | inl h ↦ inl (blank, h)
      | inr (c', rest, e) ↦ inr (c', rest, rw blank e)
    ]
    | inr first ↦ inr (c, cs, rw first refl)
  ]

  module _ (collection : List ℕ → Option (Option (List (Feature (List Point)))))
      (geofences : List ℕ → Option (List GeofencesFileEntry)) where
    decoded :
        (c : ℕ) (cs : List ℕ)
        → (r : Loaded (List (Feature (List Point)))) × (decode collection geofences (c ∷ cs)
            ≡ done r)
    decoded c cs = elim (Bool-cases (eqb c b'{')) [
      | inl brace ↦ (collection_or_error (collection (c ∷ cs)), rw brace refl)
      | inr other ↦ elim (Bool-cases (eqb c b'[')) [
        | inl bracket ↦ (geofences_or_error (geofences (c ∷ cs)), rw other (rw bracket refl))
        | inr neither ↦ (err unsupported, rw other (rw neither refl))
      ]
    ]

    -- LoadFeaturesFromFile panics with an index out of range exactly when the contents of the
    -- file are nothing but spaces and tabs, as those of an empty file are.
    pub load_features_from_file_panics :
        (contents : List ℕ)
        → (load_features_from_file collection geofences contents ≡ panic bad_index)
          ↔ IsBlank contents
    unfolding load_features_from_file
    load_features_from_file_panics contents = (
      λ panics. elim (skip_blanks-cases contents) [
        | inl blank ↦ blank
        | inr (c, rest, e) ↦
            let (r, d) = decoded c rest in cc (ap (decode_rest collection geofences) e, d, panics)
      ],
      λ blank. ap (decode_rest collection geofences) (skip_blanks_blank contents blank),
    )

  -- The ends of a ring are one point, or two that compare as equal.
  abbrev pub IsClosed : List Point → Type 0
  IsClosed [] = ⊥
  IsClosed (p ∷ path) = (last_point p path ≡ p) ⊎ (same_point p (last_point p path) ≡ true)

  last_point-snoc : (p q : Point) (path : List Point) → last_point q (path ++ p ∷ []) ≡ p
  last_point-snoc p q [] = refl
  last_point-snoc p q (r ∷ path) = last_point-snoc p r path

  last_point-map :
      (p : Point) (path : List Point)
      → last_point (swap p) (map swap path) ≡ swap (last_point p path)
  last_point-map p [] = refl
  last_point-map p (q ∷ path) = last_point-map q path

  same_point-swap : (a b : Point) → same_point a b ≡ true → same_point (swap a) (swap b) ≡ true
  same_point-swap a b h = ground (arith, h)

  swapped-IsClosed : (path : List Point) → 2 ≤ length path → IsClosed (map swap (close_path path))
  swapped-IsClosed [] h = absurd (omega (arith, h))
  swapped-IsClosed (p ∷ path) h = elim (Bool-cases (same_point p (last_point p path))) [
    | inl same ↦
        rw same (inr (rw (last_point-map p path) (same_point-swap p (last_point p path) same)))
    | inr differ ↦
        rw differ (inl (last_point-map p (path ++ p ∷ []) ∙ ap swap (last_point-snoc p p path)))
  ]

  abbrev feature_or : Feature (List Point) → Loaded (Feature (List Point)) → Feature (List Point)
  feature_or k (ok f) = f
  feature_or k (err e) = k

  abbrev features_or :
      List (Feature (List Point))
      → Loaded (List (Feature (List Point)))
      → List (Feature (List Point))
  features_or k (ok fs) = fs
  features_or k (err e) = k

  load_geofence-IsClosed :
      (g : GeofencesFileEntry) (f : Feature (List Point))
      → load_geofence g ≡ ok f
      → IsClosed f.geometry × (text_of (lookup "name" f.properties) ≡ some g.name)
  unfolding load_geofence
  load_geofence-IsClosed g f h = elim (Bool-cases (g.name == "")) [
    | inl empty ↦ cc (rw empty at h)
    | inr named ↦ elim (Bool-cases (ltb (length g.path) 2)) [
      | inl short ↦ cc (rw short at (rw named at h))
      | inr long ↦
          let closed : Feature (List Point) = record {
            properties = ("name", text g.name) ∷ [];
            geometry = map swap (close_path g.path);
          } in
          let e : closed ≡ f = ap (feature_or closed) (rw long at (rw named at h)) in
          subst (λ k. IsClosed k.geometry × (text_of (lookup "name" k.properties) ≡ some g.name)) e
            (swapped-IsClosed g.path (ground (arith, long)), unfold lookup in refl)
    ]
  ]

  -- Each feature has the name of its entry and a closed ring.
  abbrev pub AllClosed : List GeofencesFileEntry → List (Feature (List Point)) → Type 0
  AllClosed [] [] = Unit
  AllClosed (g ∷ gs) (f ∷ fs) =
      (IsClosed f.geometry × (text_of (lookup "name" f.properties) ≡ some g.name)) × AllClosed gs fs
  AllClosed _ _ = ⊥

  features-AllClosed :
      (g : GeofencesFileEntry) (gs : List GeofencesFileEntry) (one : Loaded (Feature (List Point)))
      (more : Loaded (List (Feature (List Point)))) (fs : List (Feature (List Point)))
      → ((f : Feature (List Point))
          → one ≡ ok f
          → IsClosed f.geometry × (text_of (lookup "name" f.properties) ≡ some g.name))
      → ((rest : List (Feature (List Point))) → more ≡ ok rest → AllClosed gs rest)
      → and_feature one more ≡ ok fs
      → AllClosed (g ∷ gs) fs
  features-AllClosed g gs (err e) more fs here there h = cc
  features-AllClosed g gs (ok f) (err e) fs here there h = cc
  features-AllClosed g gs (ok f) (ok rest) fs here there h =
      subst (AllClosed (g ∷ gs)) (ap (features_or []) h) (here f refl, there rest refl)

  -- If every entry of a file of names and paths is taken, then there is one feature for each
  -- entry, in order, with its name and with a ring whose last point is the first, or compares as
  -- equal to it.
  pub load_geofences-AllClosed :
      (gs : List GeofencesFileEntry) (fs : List (Feature (List Point)))
      → load_geofences gs ≡ ok fs
      → AllClosed gs fs
  unfolding load_geofences
  load_geofences-AllClosed [] fs h = subst (AllClosed []) (ap (features_or []) h) tt
  load_geofences-AllClosed (g ∷ gs) fs h =
      features-AllClosed g gs (load_geofence g) (load_geofences gs) fs (load_geofence-IsClosed g)
        (load_geofences-AllClosed gs) h
