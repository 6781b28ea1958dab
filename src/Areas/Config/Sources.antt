-- ===== src/Areas/Config/Sources.antt =====
-- Where the loader that areas/loader.go makes of a configuration takes its areas from.
use fletchling.Prelude.{
  ◌≡◌, ◌⊎◌, inl, inr, refl, subst, Bool, true, false, Option, none, some, String, ◌==◌, string_eq,
  if◌then◌else◌, Bool-cases,
}
use fletchling.Areas.Loader.{AreasLoader}
use fletchling.Areas.Config.{
  Config, not_accessible, Checked, ok, err, Url, after_prefix, fc_str, with_project, with_url,
  validate, of_config, with_client, new_areas_loader,
}

module _ (parse : String → Option Url) (opens : String → Bool) (Geometry : Type 0) where
  -- A file that is given and opens, or a project of an address.
  abbrev pub OneSource : Config → AreasLoader Geometry → Type 0
  OneSource cfg loader =
      (((cfg.koji_url == "") ≡ true)
        × ((cfg.filename == "") ≡ false)
        × (opens cfg.filename ≡ true)
        × (loader.filename ≡ cfg.filename)
        × (loader.koji_project ≡ ""))
      ⊎ (((cfg.koji_url == "") ≡ false)
          × ((cfg.filename == "") ≡ true)
          × (loader.filename ≡ "")
          × ((loader.koji_project == "") ≡ false))

  abbrev pub HasNoCache : AreasLoader Geometry → Type 0
  HasNoCache loader =
      (loader.cache_dir ≡ "") × (loader.cache_filename ≡ "") × (loader.areas_cache ≡ none)

  abbrev IsGood : Config → Checked (AreasLoader Geometry) → Type 0
  IsGood cfg (err _) = Unit {0}
  IsGood cfg (ok loader) = HasNoCache loader × OneSource cfg loader

  with_client-IsGood :
      (cfg given : Config) (uri : Option Url)
      → (given.koji_url == "") ≡ false
      → (given.filename == "") ≡ true
      → (cfg.koji_project == "") ≡ false
      → IsGood given (with_client parse opens Geometry cfg uri)
  with_client-IsGood cfg given none url no_file named = tt
  with_client-IsGood cfg given (some _) url no_file named =
      ((refl, refl, refl), inr (url, no_file, refl, named))

  with_project-IsGood :
      (given : Config) (uri : Url) (project : Option String)
      → (given.koji_url == "") ≡ false
      → (given.filename == "") ≡ true
      → IsGood given (of_config parse opens Geometry (with_project parse opens given uri project))
  with_project-IsGood given uri none url no_file = tt
  with_project-IsGood given uri (some project) url no_file = elim (Bool-cases (project == "")) [
    | inl missing ↦ rw missing tt
    | inr here ↦ rw here (
        rw no_file (
          with_client-IsGood (record given { koji_project = project; koji_base_url = uri.base })
            given (parse uri.base) url no_file here))
  ]

  with_url-IsGood :
      (given : Config) (uri : Option Url)
      → (given.koji_url == "") ≡ false
      → (given.filename == "") ≡ true
      → IsGood given (of_config parse opens Geometry (with_url parse opens given uri))
  unfolding with_url
  with_url-IsGood given none url no_file = tt
  with_url-IsGood given (some uri) url no_file =
      with_project-IsGood given uri (after_prefix fc_str uri.path) url no_file

  file-IsGood :
      (given : Config)
      → (given.koji_url == "") ≡ true
      → (given.filename == "") ≡ false
      → IsGood given (
          of_config parse opens Geometry
            (if opens given.filename then ok given else err not_accessible))
  file-IsGood given no_url file = elim (Bool-cases (opens given.filename)) [
    | inl opened ↦ rw opened (rw file ((refl, refl, refl), inl (no_url, file, opened, refl, refl)))
    | inr closed ↦ rw closed tt
  ]

  new_areas_loader-IsGood :
      (given : Config) → IsGood given (new_areas_loader parse opens Geometry given)
  unfolding new_areas_loader validate
  new_areas_loader-IsGood given = elim (Bool-cases (given.koji_url == "")) [
    | inl no_url ↦ elim (Bool-cases (given.filename == "")) [
      | inl no_file ↦ rw no_url (rw no_file tt)
      | inr file ↦ rw no_url (rw file (file-IsGood given no_url file))
    ]
    | inr url ↦ elim (Bool-cases (given.filename == "")) [
      | inl no_file ↦ rw url (rw no_file (with_url-IsGood given (parse given.koji_url) url no_file))
      | inr file ↦ rw url (rw file tt)
    ]
  ]

  -- A loader that NewAreasLoader makes has one source and no file for its cache.
  pub new_areas_loader-OneSource :
      (given : Config) (loader : AreasLoader Geometry)
      → new_areas_loader parse opens Geometry given ≡ ok loader
      → HasNoCache loader × OneSource given loader
  new_areas_loader-OneSource given loader h = subst (IsGood given) h (new_areas_loader-IsGood given)
