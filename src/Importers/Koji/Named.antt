-- ===== src/Importers/Koji/Named.antt =====
-- The names under which importers/koji.go makes geofences are names that koji_client/admin.go takes.
use Prim.Native.String
use fletchling.Prelude.{
  ℤ, ◌≡◌, refl, Bool, true, false, Option, none, some, List, String, ◌==◌, string_eq, inl, inr,
  Bool-cases, Option-cases, arith, pos,
}
use fletchling.Prelude.Strings.{cons-append}
use fletchling.Prelude.Time.{Time}
use fletchling.Prelude.Map.{Map, lookup}
use fletchling.Geo.{Feature}
use fletchling.Koji.{Geofence, Codec, looks_like_number}
use fletchling.Koji.Requests.{Request, Reply, State}
use fletchling.Koji.Geofences.{create_geofence, post_geofence}
use fletchling.Importers.Koji.{safe_name, Known, check_duplicate, prepared}

looks_like_number-append :
    (a b : String) → looks_like_number a ≡ false → looks_like_number (String.◌++◌ a b) ≡ false
unfolding looks_like_number
looks_like_number-append String.[] b h = cc
looks_like_number-append (String.◌∷◌ c s) b h =
    rw (cons-append c s b) (ground (arith, looks_like_number-append s b))

word_is_no_number : looks_like_number "Nest " ≡ false
unfolding looks_like_number
word_is_no_number = refl

safe_name_lem : (name : String) → looks_like_number (safe_name name) ≡ false
unfolding safe_name
safe_name_lem name = elim (Bool-cases (looks_like_number name)) [
  | inl number ↦ rw number (looks_like_number-append "Nest " name word_is_no_number)
  | inr not_number ↦ rw not_number not_number
]

empty_is_number : looks_like_number "" ≡ true
unfolding looks_like_number
empty_is_number = refl

not_number-not_empty : (s : String) → looks_like_number s ≡ false → (s == "") ≡ false
not_number-not_empty s h = grind (arith, string_eq.same_iff s "", empty_is_number)

module _ {Geometry B W : Type 0} (codec : Codec Geometry B)
    (serve : Request B → W → Option (Reply B) × W) (now : Time) (geo_type : Geometry → String)
    (label_text : Geometry → String) (create_properties : Bool) where
  private_name :
      (m : Map String (Geofence Geometry)) (g : Geometry) (name : String)
      → looks_like_number name ≡ false
      → looks_like_number
          (check_duplicate codec serve now geo_type label_text create_properties m g name)
        ≡ false
  unfolding check_duplicate
  private_name m g name h = elim (Option-cases (lookup name m)) [
    | inl absent ↦ rw (absent, check_duplicate) h
    | inr (_, present) ↦
        rw (present, check_duplicate) (looks_like_number-append name (label_text g) h)
  ]

  create_geofence-named :
      (geofence : Geofence Geometry) (s : State W)
      → geofence.id ≡ pos 0
      → looks_like_number geofence.name ≡ false
      → create_geofence codec serve now geofence s ≡ post_geofence codec serve now geofence s
  unfolding create_geofence fletchling.Prelude.Int.eqb_ℤ
  create_geofence-named geofence s new named =
      rw (new, not_number-not_empty geofence.name named, named) refl

  -- Whatever names and features there are, the geofence that is made of a feature passes all the
  -- tests of CreateGeofence.
  pub prepared-accepted :
      (projects : List ℤ) (feature : Feature Geometry) (name : String)
      (known : Known codec serve now geo_type label_text create_properties) (s : State W)
      → let (geofence, s') =
          prepared codec serve now geo_type label_text create_properties projects feature
            (safe_name name)
            known
            s in
        create_geofence codec serve now geofence s' ≡ post_geofence codec serve now geofence s'
  unfolding prepared
  prepared-accepted projects feature name known s =
      create_geofence-named _ _ refl
        (private_name known.by_name feature.geometry (safe_name name) (safe_name_lem name))
