-- ===== src/Http/Operators/Guarded.antt =====
-- Who reaches a handler that changes something for an operator.
use wildman_service.Base.{
  ℕ, String, ◌≡◌, refl, ap, ◌∙◌, ◌⊎◌, inl, inr, true, some, List, [], Bool-cases, Result,
  Result-cases, Faults, int_eq, string_eq, nat_eq, list_eq, err,
}
use wildman_service.Auth.{User}
use wildman_service.Auth.Store.{SessionWithUser}
use wildman_service.Auth.Service as Auth
use wildman_service.Auth.Service.Sessions.{IsLive, row_of, authenticate_sound, authenticate_frame}
use wildman_service.Http.{Request, Response, refuse, Header, Server, Handler}
use wildman_service.Http.Guards.{request_csrf_valid, session_token}
use wildman_service.Http.Operators.{
  Operators, after_authentication, operator_user_id, csrf_checked, guarded,
}
use wildman_service.Database.{Database}

abbrev pub IsRefused : {Num A : Type 0} → Response A × Server Num → Server Num → Type 0
IsRefused answer s =
    (st : ℕ) × (code : String) × (hs : List Header) × (answer ≡ (refuse st code hs, s))

module _ {Num A : Type 0} (o : Operators) (faults : Faults) (now : ℕ) (r : Request)
    (next : String → Handler Num A) where
  csrf_checked-cases :
      (h : Handler Num A) (s : Server Num)
      → ((request_csrf_valid r ≡ true) × (csrf_checked r h s ≡ h s))
        ⊎ IsRefused (csrf_checked r h s) s
  unfolding csrf_checked
  csrf_checked-cases h s = elim (Bool-cases (request_csrf_valid r)) [
    | inl valid ↦ inl (valid, rw valid refl)
    | inr invalid ↦ inr (403, "CSRF_TOKEN_INVALID", [], rw invalid refl)
  ]

  after_authentication-IsRefused :
      (e : Auth.Error) (k : String → Handler Num A) (s : Server Num)
      → IsRefused (after_authentication k (err e) s) s
  unfolding after_authentication
  after_authentication-IsRefused Auth.unauthenticated k s =
      (401, "AUTHENTICATION_REQUIRED", [], refl)
  after_authentication-IsRefused Auth.setup_complete k s = (500, "INTERNAL_ERROR", [], refl)
  after_authentication-IsRefused Auth.invalid_username k s = (500, "INTERNAL_ERROR", [], refl)
  after_authentication-IsRefused Auth.invalid_password k s = (500, "INTERNAL_ERROR", [], refl)
  after_authentication-IsRefused Auth.invalid_credentials k s = (500, "INTERNAL_ERROR", [], refl)
  after_authentication-IsRefused Auth.password_not_verified k s = (500, "INTERNAL_ERROR", [], refl)
  after_authentication-IsRefused Auth.store_failed k s = (500, "INTERNAL_ERROR", [], refl)

  -- The state after the authentication: only sessions may have changed.
  abbrev pub authenticated : Server Num → Server Num
  authenticated s = record s {
    db =
        (Auth.authenticate o.unicode o.id_key o.hash_token o.dummy_password_hash faults
          (session_token r) now s.db).1;
  }

  -- A request to one of the guarded handlers either reaches it, and then it showed the token of a live session of
  -- an active user, whose id the handler gets, and a CSRF header that equals the cookie, or it is refused and
  -- the handler does not run. In both cases nothing but the table of sessions has changed before.
  pub guarded-cases :
      (s : Server Num)
      → (((session : SessionWithUser) × (row_of o.unicode o.id_key o.hash_token
                o.dummy_password_hash
                (session_token r)
                s.db
              ≡ some session)
            × IsLive now session
            × (request_csrf_valid r ≡ true)
            × (guarded o faults now r next s ≡ next session.user.id (authenticated s)))
          ⊎ IsRefused (guarded o faults now r next s) (authenticated s))
        × ((authenticated s).db ≡ record s.db { sessions = (authenticated s).db.sessions })
  unfolding guarded operator_user_id after_authentication
  guarded-cases s = (
    elim (Result-cases op.0) [
      | inr (e, bad) ↦ inr (
          rw bad
            (after_authentication-IsRefused e (λ id. csrf_checked r (next id)) (authenticated s)))
      | inl (user, good) ↦
          let (session, found, live, same) =
            authenticate_sound o.unicode o.id_key o.hash_token o.dummy_password_hash faults
              (session_token r) now s.db user good in
          elim (csrf_checked-cases (next user.id) (authenticated s)) [
            | inl (valid, e) ↦ inl (
              session,
              found,
              live,
              valid,
              rw good (e ∙ ap (λ (v : User). next v.id (authenticated s)) same),
            )
            | inr refused ↦ inr (rw good refused)
          ]
    ],
    authenticate_frame o.unicode o.id_key o.hash_token o.dummy_password_hash faults
        (session_token r) now s.db,
  )
    where
      op : Result Auth.Error User × Database Num
      op =
          Auth.authenticate o.unicode o.id_key o.hash_token o.dummy_password_hash faults
            (session_token r) now s.db
