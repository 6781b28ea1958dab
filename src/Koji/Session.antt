-- ===== src/Koji/Session.antt =====
-- The requests that makeInternalRequest of koji_client/admin.go sends, with any server.
use Prim.Native.String
use fletchling.Prelude.{
  ◌≡◌, refl, ◌⊎◌, inl, inr, false, Option, none, some, List, ◌∷◌, String, eqb, eqb_iff, Bool-cases,
  Option-cases,
}
use fletchling.Koji.Requests.{
  Method, post, Request, Reply, State, Run, ok, err, answered, do_one_request, login, asked_again,
  make_internal_request,
}

-- What was sent, the last request first.
abbrev pub Log : Type 0 → Type 0
Log B = List (Request B)

module _ {W B : Type 0} (serve : Request B → W → Option (Reply B) × W) where
  -- The same server, and a log of what it is sent.
  abbrev pub recording : Request B → W × Log B → Option (Reply B) × (W × Log B)
  recording r (w, log) = ((serve r w).0, ((serve r w).1, r ∷ log))

  abbrev pub sent : {A : Type 0} → Run (W × Log B) A → Log B
  sent (ok _ s) = s.server.1
  sent (err _ s) = s.server.1

  abbrev pub reply_of : Run (W × Log B) (Reply B) → Option (Reply B)
  reply_of (ok r _) = some r
  reply_of (err _ _) = none

  sent-answered :
      (s : State (W × Log B)) (a : Option (Reply B)) (w : W) (log : Log B)
      → sent (answered recording s (a, (w, log))) ≡ log
  sent-answered s none w log = refl
  sent-answered s (some _) w log = refl

  reply_of-answered :
      (s : State (W × Log B)) (a : Option (Reply B)) (w : W) (log : Log B)
      → reply_of (answered recording s (a, (w, log))) ≡ a
  reply_of-answered s none w log = refl
  reply_of-answered s (some _) w log = refl

  module _ (of_login : String → Option B) (method : Method) (path : String) (body : Option B)
      (s : State (W × Log B)) where
    abbrev pub first : Request B
    first = record {
      method = method;
      url = String.◌++◌ s.url (String.◌++◌ "/internal/admin" path);
      body = body;
    }

    abbrev pub signs_in : B → Request B
    signs_in password = record {
      method = post;
      url = String.◌++◌ s.url "/config/login";
      body = some password;
    }

    -- Not to the address of the first.
    abbrev pub again : Request B
    again = record { method = method; url = String.◌++◌ s.url path; body = body }

    abbrev pub after_first : W
    after_first = (serve first s.server.0).1

    abbrev pub after_login : B → W
    after_login password = (serve (signs_in password) after_first).1

    -- The first request and nothing more: it is not answered, or its answer is no 401 and is
    -- returned, or the password cannot be encoded.
    abbrev pub EndsAtFirst : Run (W × Log B) (Reply B) → Type 0
    EndsAtFirst run =
        (sent run ≡ first ∷ s.server.1)
        × (((reply_of run ≡ none) × ((serve first s.server.0).0 ≡ none))
            ⊎ ((r : Reply B) × (reply_of run ≡ some r)
                × ((serve first s.server.0).0 ≡ some r)
                × (eqb r.status 401 ≡ false))
            ⊎ ((reply_of run ≡ none) × (of_login s.bearer_token ≡ none)))

    -- The login is the second request, and it is not answered, or with another status than 200.
    abbrev pub EndsAtLogin : B → Run (W × Log B) (Reply B) → Type 0
    EndsAtLogin password run =
        (sent run ≡ signs_in password ∷ first ∷ s.server.1)
        × (reply_of run ≡ none)
        × (((serve (signs_in password) after_first).0 ≡ none)
            ⊎ ((l : Reply B) × ((serve (signs_in password) after_first).0 ≡ some l)
                × (eqb l.status 200 ≡ false)))

    abbrev pub AsksAgain : B → Run (W × Log B) (Reply B) → Type 0
    AsksAgain password run =
        (l : Reply B) × ((serve (signs_in password) after_first).0 ≡ some l)
        × (l.status ≡ 200)
        × (sent run ≡ again ∷ signs_in password ∷ first ∷ s.server.1)
        × (reply_of run ≡ (serve again (after_login password)).0)

    abbrev pub Exchange : Run (W × Log B) (Reply B) → Type 0
    Exchange run =
        EndsAtFirst run
        ⊎ ((password : B) × (of_login s.bearer_token ≡ some password)
            × (r : Reply B) × ((serve first s.server.0).0 ≡ some r)
            × (r.status ≡ 401)
            × (EndsAtLogin password run ⊎ AsksAgain password run))

    -- With any server, makeInternalRequest sends the request to the address with the prefix of
    -- the administration. Either it sends nothing more, because no answer came, or an answer
    -- other than 401, which it returns, or because the password cannot be encoded; or the answer
    -- is 401 and it logs in, and either it fails and sends nothing more, because no answer came
    -- to the login or one other than 200, or the login is answered with 200 and it sends the
    -- request once more, now to the address without the prefix, and returns what that gives.
    pub make_internal_request-Exchange :
        Exchange (make_internal_request recording of_login method path body s)
    unfolding make_internal_request do_one_request login asked_again
    make_internal_request-Exchange = elim (Option-cases (serve first s.server.0).0) [
      | inl none_came ↦ rw none_came (inl (refl, inl (refl, refl)))
      | inr (r, came) ↦ elim (Bool-cases (eqb r.status 401)) [
        | inr taken ↦ rw came (rw taken (inl (refl, inr (inl (r, refl, refl, taken)))))
        | inl refused ↦
            let status : r.status ≡ 401 = (eqb_iff r.status 401).0 refused in
            elim (Option-cases (of_login s.bearer_token)) [
              | inl not_encoded ↦
                  rw came (rw refused (rw not_encoded (inl (refl, inr (inr (refl, refl))))))
              | inr (password, encoded) ↦
                  elim (Option-cases (serve (signs_in password) after_first).0) [
                    | inl lost ↦ rw came (
                        rw refused (
                          rw encoded (
                            rw lost
                              (inr (password, refl, r, refl, status, inl (refl, refl, inl lost))))))
                    | inr (l, login_came) ↦ elim (Bool-cases (eqb l.status 200)) [
                      | inr bad ↦ rw came (
                          rw refused (
                            rw encoded (
                              rw login_came (
                                rw bad (
                                  inr (
                                    password,
                                    refl,
                                    r,
                                    refl,
                                    status,
                                    inl (refl, refl, inr (l, login_came, bad)),
                                  ))))))
                      | inl good ↦
                          let done : l.status ≡ 200 = (eqb_iff l.status 200).0 good in
                          rw came (
                            rw refused (
                              rw encoded (
                                rw login_came (
                                  rw good (
                                    inr (
                                      password,
                                      refl,
                                      r,
                                      refl,
                                      status,
                                      inr (
                                        l,
                                        login_came,
                                        done,
                                        sent-answered s _ _ _,
                                        reply_of-answered s _ _ _,
                                      ),
                                    ))))))
                    ]
                  ]
            ]
      ]
    ]
