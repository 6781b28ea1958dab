-- ===== src/Koji/Requests.antt =====
-- doOneRequest, login and makeInternalRequest of koji_client/admin.go, and decodeResponse of
-- koji_client/common.go. The server is a parameter that may change its state and may not be reached.
use Prim.Native.String
use mathlib.Core.Bool.{◌||◌}
use fletchling.Prelude.{ℕ, ℤ, Bool, Option, none, some, List, String, ltb, eqb, if◌then◌else◌}
use fletchling.Prelude.Map.{Map}
use fletchling.Koji.{Property}

pub data Method : Type 0 where
  get post patch : Method

pub record Request (B : Type 0) : Type 0 where
  pub method : Method
  pub url : String
  pub body : Option B

pub record Reply (B : Type 0) : Type 0 where
  pub status : ℕ
  pub body : B

pub data KojiError : Type 0 where
  not_encoded not_sent not_logged_in bad_status not_decoded : KojiError
  has_id has_no_name is_number no_category no_project : KojiError

pub record CliProps : Type 0 where
  pub list : List Property
  pub by_name : Map String Property
  pub by_id : Map ℤ Property

-- The client, and the server that it talks to.
pub record State (W : Type 0) : Type 0 where
  pub url : String
  pub bearer_token : String
  pub props : Option CliProps
  pub server : W

pub data Run (W A : Type 0) : Type 0 where
  ok : A → State W → Run W A
  err : KojiError → State W → Run W A

abbrev pub Call : Type 0 → Type 0 → Type 0
Call W A = State W → Run W A

module _ {W A : Type 0} where
  abbrev pub pure : A → Call W A
  pure = ok

  abbrev pub fail : KojiError → Call W A
  fail = err

  -- What a codec makes, or the error.
  abbrev pub some_or : KojiError → Option A → Call W A
  some_or e none = err e
  some_or e (some a) = ok a

module _ {W A B : Type 0} where
  abbrev pub and_then : Run W A → (A → Call W B) → Run W B
  and_then (ok a s) k = k a s
  and_then (err e s) k = err e s

  infixl 5 ◌>>=◌ ◌>>◌
  abbrev pub ◌>>=◌ : Call W A → (A → Call W B) → Call W B
  m >>= k = λ s. and_then (m s) k

  abbrev pub ◌>>◌ : Call W A → Call W B → Call W B
  m >> n = m >>= λ _. n

module _ {W B : Type 0} (serve : Request B → W → Option (Reply B) × W) where
  abbrev pub answered : State W → Option (Reply B) × W → Run W (Reply B)
  answered s (none, w) = err not_sent (record s { server = w })
  answered s (some reply, w) = ok reply (record s { server = w })

  unfoldable pub do_one_request : Method → String → Option B → Call W (Reply B)
  do_one_request method url body s =
      answered s
        (serve (record { method = method; url = String.◌++◌ s.url url; body = body }) s.server)

  unfoldable pub login : (String → Option B) → Call W (Unit {0})
  unfolding do_one_request
  login of_login s =
      (do
        body ← some_or not_encoded (of_login s.bearer_token)
        reply ← do_one_request post "/config/login" (some body)
        if eqb reply.status 200 then pure tt else fail not_logged_in)
        s

  -- If the session has ended, the client logs in and asks again, without the prefix of the address.
  unfoldable pub asked_again :
      (String → Option B) → Method → String → Option B → Reply B → Call W (Reply B)
  unfolding do_one_request login
  asked_again of_login method url body reply =
      if eqb reply.status 401 then login of_login >> do_one_request method url body else pure reply

  unfoldable pub make_internal_request :
      (String → Option B) → Method → String → Option B → Call W (Reply B)
  unfolding do_one_request asked_again
  make_internal_request of_login method url body = do
    reply ← do_one_request method (String.◌++◌ "/internal/admin" url) body
    asked_again of_login method url body reply

abbrev pub is_refused : ℕ → Bool
is_refused status = ltb status 200 || ltb 202 status

module _ {W A B : Type 0} where
  unfoldable pub decode_response : (B → Option A) → Reply B → Call W A
  decode_response decode reply =
      if is_refused reply.status then fail bad_status else some_or not_decoded (decode reply.body)
