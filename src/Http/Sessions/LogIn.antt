-- ===== src/Http/Sessions/LogIn.antt =====
-- A browser that has logged in.
use wildman_service.Base.{
  ℕ, ◌+◌, ◌≤◌, String, ◌≡◌, refl, sym, ap, ◌∙◌, ◌≢◌, inl, inr, Bool, true, false, Option, none,
  some, List, [], ◌∷◌, arith, Result, Result-cases, Faults, no_faults, All, first_where, int_eq,
  string_eq, nat_eq, ◌==◌, list_eq, Text, ok,
}
use wildman_service.Auth.{User}
use wildman_service.Auth.Service as Auth
use wildman_service.Auth.Service.Setup.{login_effect, login-authenticate}
use wildman_service.Auth.Service.LogIn.{login-All}
use wildman_service.Limiter.{allow_login}
use wildman_service.Http.{Request, Response, reply, Header, set_cookie, Server, Handler}
use wildman_service.Http.Guards.{session_token}
use wildman_service.Http.Operators.{Operators}
use wildman_service.Http.Sessions.{
  UserResponse, LoginResponse, Credentials, to_user_response, login_limit_key, after_login,
  login_with, limited_login, post_login, after_me, get_me,
}
use wildman_service.Database.{Database}

-- The session of a log-in, as the cookie that the browser gets.
abbrev pub cookies_of : Text → Text → ℕ → List Header
cookies_of token csrf_token end =
    set_cookie "wildman_session" token end ∷ set_cookie "wildman_csrf" csrf_token end ∷ []

module _ {Num : Type 0} (o : Operators) (faults : Faults) (now : ℕ) (r : Request) (id : String)
    (token csrf_token : Text) where
  abbrev logs_in : Credentials → Database Num → Result Auth.Error Auth.LoginResult × Database Num
  logs_in input db =
      Auth.login o.unicode o.id_key o.hash_token o.dummy_password_hash faults input.username
        input.password id token now db

  login_with-reply :
      (body : Option Credentials) (s : Server Num) (st : ℕ) (v : LoginResponse) (hs : List Header)
      → (login_with o faults now r id token csrf_token body s).0 ≡ reply st v hs
      → (input : Credentials) × (result : Auth.LoginResult) × ((logs_in input s.db).0 ≡ ok result)
        × (v.user ≡ to_user_response result.user)
        × (hs ≡ cookies_of result.token csrf_token result.expires_at)
        × ((login_with o faults now r id token csrf_token body s).1.db ≡ (logs_in input s.db).1)
  unfolding login_with after_login
  login_with-reply none s st v hs h = absurd (ground (arith, h))
  login_with-reply (some input) s st v hs h = elim (Result-cases (logs_in input s.db).0) [
    | inr (e, bad) ↦ absurd (ground (arith, rw bad at h))
    | inl (result, good) ↦
        let e = rw good at h in
        (input, result, good, ground (arith, e), ground (arith, e), rw good refl)
  ]

  limited_login-reply :
      (next : Handler Num LoginResponse) (allowed : Bool) (s : Server Num) (st : ℕ)
      (v : LoginResponse) (hs : List Header)
      → (limited_login o faults now r next allowed s).0 ≡ reply st v hs
      → limited_login o faults now r next allowed s ≡ next s
  unfolding limited_login
  limited_login-reply next true s st v hs h = refl
  limited_login-reply next false s st v hs h = absurd (ground (arith, h))

  get_me-user :
      (later : ℕ) (r' : Request) (s : Server Num) (user : User)
      → session_token r' ≡ token
      → (Auth.authenticate o.unicode o.id_key o.hash_token o.dummy_password_hash no_faults token
          later s.db).0
        ≡ ok user
      → (get_me o no_faults later r' s).0
        ≡ reply 200 (record { user = to_user_response user; csrf_token = [] }) []
  unfolding get_me after_me
  get_me-user later r' s user shown who = rw (shown, who) refl

  -- After a log-in that was answered, the browser has a cookie with the token of its session, and every
  -- request that carries it, until a day later, is answered by GET /auth/me with the user who has logged in.
  -- The token must not be empty, the id of each user must find that user, and the database must not fail while
  -- the second request is served.
  pub post_login-get_me :
      (split_host : Text → Option Text) (spell : Text → String) (body : Option Credentials)
      (s : Server Num) (st : ℕ) (v : LoginResponse) (hs : List Header)
      → token ≢ []
      → All (λ (w : User). first_where (λ x. x.id == w.id) s.db.users ≡ some w) s.db.users
      → let answer = post_login o faults now r split_host spell id token csrf_token body s in
        answer.0 ≡ reply st v hs
        → ((end : ℕ) × (hs ≡ cookies_of token csrf_token end))
          × ((later : ℕ) (r' : Request)
              → session_token r' ≡ token
              → later ≤ now + Auth.session_idle_lifetime
              → (get_me o no_faults later r' answer.1).0
                ≡ reply 200 (record { user = v.user; csrf_token = [] }) [])
  unfolding post_login
  post_login-get_me split_host spell body s st v hs given primary h =
      let out = allow_login (spell (login_limit_key split_host r)) now s.login_limiter in
      let s' : Server Num = record s { login_limiter = out.1 } in
      let next = login_with o faults now r id token csrf_token body in
      let reached = limited_login-reply next out.0 s' st v hs h in
      let (input, result, done, same, cookies, db) =
        login_with-reply body s' st v hs
          (ap (λ (a : Response LoginResponse × Server Num). a.0) (sym reached) ∙ h) in
      let (tok, _, _, _) =
        login_effect o.unicode o.id_key o.hash_token o.dummy_password_hash faults input.username
          input.password id token now s.db result done in
      let found =
        login-All o.unicode o.id_key o.hash_token o.dummy_password_hash
          (λ (w : User). first_where (λ x. x.id == w.id) s.db.users ≡ some w) faults input.username
          input.password id token now s.db result primary done in
      (
        (
          result.expires_at,
          cookies ∙ ap (λ (t : Text). cookies_of t csrf_token result.expires_at) tok,
        ),
        λ later r' shown soon.
            let who =
              login-authenticate o.unicode o.id_key o.hash_token o.dummy_password_hash faults
                no_faults input.username input.password id token now later s.db result refl refl
                given soon found done in
            let kept = ap (λ (a : Response LoginResponse × Server Num). a.1.db) reached ∙ db in
            get_me-user later r' (limited_login o faults now r next out.0 s').1 result.user shown (
              ap
                (λ (d : Database Num).
                  (Auth.authenticate o.unicode o.id_key o.hash_token o.dummy_password_hash no_faults
                    token later d).0)
                kept
              ∙ who)
            ∙ ap
                (λ (w : UserResponse).
                  reply 200 (let x : LoginResponse = record { user = w; csrf_token = [] } in x) [])
                (sym same),
      )

  -- A log-in that the limiter and the service let through is answered.
  pub post_login-passes :
      (split_host : Text → Option Text) (spell : Text → String) (input : Credentials)
      (s : Server Num) (result : Auth.LoginResult)
      → (allow_login (spell (login_limit_key split_host r)) now s.login_limiter).0 ≡ true
      → (Auth.login o.unicode o.id_key o.hash_token o.dummy_password_hash faults input.username
          input.password id token now s.db).0
        ≡ ok result
      → (post_login o faults now r split_host spell id token csrf_token (some input) s).0
        ≡ reply 200
            (record { user = to_user_response result.user; csrf_token = csrf_token })
            (cookies_of result.token csrf_token result.expires_at)
  unfolding post_login login_with after_login limited_login
  post_login-passes split_host spell input s result allowed done =
      rw (allowed, limited_login, done) refl
