-- ===== src/Koji/Geofences.antt =====
-- Geofences, projects and the start of the client, koji_client/admin.go.
use Prim.Native.String
use mathlib.Core.Bool.{not}
use fletchling.Prelude.{
  ℕ, zero, suc, ◌+◌, ◌/◌, ◌%◌, ℤ, pos, negsuc, Option, none, some, List, [], ◌∷◌, String, eqb, ◌==◌,
  int_eq, string_eq, if◌then◌else◌,
}
use fletchling.Prelude.Time.{Time}
use fletchling.Koji.{GeofenceBrief, Geofence, ProjectBrief, Project, Codec, looks_like_number}
use fletchling.Koji.Requests.{
  get, post, patch, Request, Reply, Run, not_encoded, has_id, has_no_name, is_number, no_project,
  Call, pure, fail, some_or, ◌>>=◌, ◌>>◌, login, make_internal_request, decode_response,
}

abbrev digit : ℕ → String
digit n =
    if eqb n 0
    then "0"
    else if eqb n 1
    then "1"
    else if eqb n 2
    then "2"
    else if eqb n 3
    then "3"
    else if eqb n 4
    then "4"
    else if eqb n 5
    then "5"
    else if eqb n 6
    then "6"
    else if eqb n 7
    then "7"
    else if eqb n 8
    then "8"
    else "9"

-- The digits of a number, before those that follow; a number has no more digits than its value.
unfoldable pub digits : ℕ → ℕ → String → String
digits zero n after = String.◌++◌ (digit (n % 10)) after
digits (suc k) n after =
    let rest = digits k (n / 10) (String.◌++◌ (digit (n % 10)) after) in
    if eqb (n / 10) 0 then String.◌++◌ (digit (n % 10)) after else rest

-- `strconv.Itoa`
unfoldable pub itoa : ℤ → String
unfolding digits
itoa (pos n) = digits n n ""
itoa (negsuc n) = String.◌++◌ "-" (digits n (n + 1) "")

module _ {Geometry B W : Type 0} (codec : Codec Geometry B)
    (serve : Request B → W → Option (Reply B) × W) where
  abbrev pub geofence_url : ℤ → String
  geofence_url id = String.◌++◌ "/geofence/" (String.◌++◌ (itoa id) "/")

  abbrev pub project_url : ℤ → String
  project_url id = String.◌++◌ "/project/" (String.◌++◌ (itoa id) "/")

  unfoldable pub get_geofence_by_id : ℤ → Call W (Geofence Geometry)
  unfolding make_internal_request decode_response
  get_geofence_by_id id = do
    reply ← make_internal_request serve codec.of_login get (geofence_url id) none
    decode_response codec.to_geofence reply

  module _ (now : Time) where
    abbrev pub now_if_none : Option Time → Option Time
    now_if_none none = some now
    now_if_none (some t) = some t

    -- The guards are passed.
    unfoldable pub post_geofence : Geofence Geometry → Call W (Geofence Geometry)
    unfolding make_internal_request decode_response get_geofence_by_id
    post_geofence geofence = do
      body ← some_or not_encoded (
          codec.of_geofence (record geofence {
            created_at = now_if_none geofence.created_at;
            updated_at = now_if_none geofence.updated_at;
          }))
      reply ← make_internal_request serve codec.of_login post "/geofence/" (some body)
      made ← decode_response codec.to_geofence reply
      get_geofence_by_id made.id

    unfoldable pub create_geofence : Geofence Geometry → Call W (Geofence Geometry)
    unfolding post_geofence looks_like_number
    create_geofence geofence =
        if not (geofence.id == pos 0)
        then fail has_id
        else if geofence.name == ""
        then fail has_no_name
        else if looks_like_number geofence.name
        then fail is_number
        else post_geofence geofence

    -- The answer is only looked at as to whether it is JSON.
    unfoldable pub update_geofence :
        (B → Option (Unit {0})) → Geofence Geometry → Call W (Geofence Geometry)
    unfolding make_internal_request decode_response get_geofence_by_id
    update_geofence is_json geofence = do
      body ←
          some_or not_encoded
            (codec.of_geofence (record geofence { updated_at = now_if_none geofence.updated_at }))
      reply ←
          make_internal_request serve codec.of_login patch (geofence_url geofence.id) (some body)
      decode_response is_json reply
      get_geofence_by_id geofence.id

  unfoldable pub get_all_geofences : Call W (List GeofenceBrief)
  unfolding make_internal_request decode_response
  get_all_geofences = do
    reply ← make_internal_request serve codec.of_login get "/geofence/all/" none
    decode_response codec.to_geofences reply

  unfoldable pub full_geofences : List GeofenceBrief → Call W (List (Geofence Geometry))
  unfolding get_geofence_by_id
  full_geofences [] = pure []
  full_geofences (brief ∷ briefs) = do
    geofence ← get_geofence_by_id brief.id
    geofences ← full_geofences briefs
    pure (geofence ∷ geofences)

  unfoldable pub get_all_geofences_full : Call W (List (Geofence Geometry))
  unfolding get_all_geofences full_geofences
  get_all_geofences_full = do briefs ← get_all_geofences; full_geofences briefs

  unfoldable pub get_all_projects : Call W (List ProjectBrief)
  unfolding make_internal_request decode_response
  get_all_projects = do
    reply ← make_internal_request serve codec.of_login get "/project/all/" none
    decode_response codec.to_projects reply

  unfoldable pub get_project_by_id : ℤ → Call W Project
  unfolding make_internal_request decode_response
  get_project_by_id id = do
    reply ← make_internal_request serve codec.of_login get (project_url id) none
    decode_response codec.to_project reply

  -- The first project of the name is asked for.
  unfoldable pub named_project : String → List ProjectBrief → Call W Project
  unfolding get_project_by_id
  named_project name [] = fail no_project
  named_project name (p ∷ ps) =
      if p.name == name then get_project_by_id p.id else named_project name ps

  unfoldable pub get_project_by_name : String → Call W Project
  unfolding get_all_projects named_project
  get_project_by_name name = do projects ← get_all_projects; named_project name projects

  -- None if the address does not parse; else the client once it has logged in.
  unfoldable pub new_admin_client :
      (String → Option (Unit {0})) → (url bearer_token : String) → W → Option (Run W (Unit {0}))
  unfolding login
  new_admin_client parse url bearer_token server = elim (parse url) [
    | none ↦ none
    | some _ ↦ some (
        login serve codec.of_login
          (record { url = url; bearer_token = bearer_token; props = none; server = server }))
  ]
