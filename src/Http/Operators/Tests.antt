-- ===== src/Http/Operators/Tests.antt =====
-- An operator who logs in and is let in.
use wildman_service.Base.{
  ℕ, ◌≡◌, refl, ap, ◌⊎◌, true, some, [], ◌∷◌, no_faults, All, first_where, int_eq, string_eq,
  nat_eq, ◌==◌, list_eq, codes,
}
use wildman_service.Unicode.{ascii}
use wildman_service.Auth.{User}
use wildman_service.Auth.Store.{SessionWithUser}
use wildman_service.Auth.Service.Sessions.{IsLive, row_of}
use wildman_service.Auth.Service.Tests as Auth
use wildman_service.Limiter.Bound.{allow_login-first}
use wildman_service.Http.{Request, reply}
use wildman_service.Http.Guards.{request_csrf_valid, session_token}
use wildman_service.Http.Operators.{Operators, guarded}
use wildman_service.Http.Operators.Guarded.{IsRefused, authenticated, guarded-cases}
use wildman_service.Http.Sessions.{Credentials, LoginResponse, post_login, to_user_response}
use wildman_service.Http.Sessions.LogIn.{cookies_of, post_login-get_me, post_login-passes}
use wildman_service.Http.Tests.{request_with, server_with, echo}

abbrev operators : Operators
operators = record {
  unicode = ascii;
  id_key = Auth.id_key;
  hash_token = Auth.hash_token;
  dummy_password_hash = [];
}

abbrev admin_call : Request
admin_call = record {
  method = "POST";
  host = codes "s";
  remote_addr = codes "1";
  headers = ("X-CSRF-Token", codes "x") ∷ [];
  cookies = ("wildman_session", codes "t") ∷ ("wildman_csrf", codes "x") ∷ [];
}

guarded-cases_example :
    let s' = authenticated operators no_faults 20 admin_call echo (server_with Auth.logged_in) in
    let answer = guarded operators no_faults 20 admin_call echo (server_with Auth.logged_in) in
    (((session : SessionWithUser) × (row_of ascii Auth.id_key Auth.hash_token []
            (session_token admin_call)
            Auth.logged_in
          ≡ some session)
        × IsLive 20 session
        × (request_csrf_valid admin_call ≡ true)
        × (answer ≡ echo session.user.id s'))
      ⊎ IsRefused answer s')
    × (s'.db ≡ record Auth.logged_in { sessions = s'.db.sessions })
guarded-cases_example =
    guarded-cases operators no_faults 20 admin_call echo (server_with Auth.logged_in)

abbrev browser : Request
browser = request_with []

abbrev credentials : Credentials
credentials = record { username = codes " Admin "; password = codes "secret" }

abbrev response : LoginResponse
response = record { user = to_user_response Auth.admin; csrf_token = codes "x" }

abbrev day_later : ℕ
day_later = 604800000000010

answered :
    (post_login operators no_faults 10 browser some
      (λ t. "1")
      "s1"
      Auth.token
      (codes "x")
      (some credentials)
      (server_with Auth.db)).0
    ≡ reply 200 response (cookies_of Auth.token (codes "x") day_later)
answered =
    post_login-passes operators no_faults 10 browser "s1" Auth.token (codes "x") some (λ t. "1")
      credentials (server_with Auth.db) _ (allow_login-first "1" 10 0)
      (ap (λ x. x.0) Auth.login_ok_here)

named : All (λ (w : User). first_where (λ x. x.id == w.id) Auth.db.users ≡ some w) Auth.db.users
unfolding first_where
named = (refl, tt)

post_login-get_me_example :
    (end : ℕ) × (cookies_of Auth.token (codes "x") day_later
      ≡ cookies_of Auth.token (codes "x") end)
post_login-get_me_example =
    (post_login-get_me operators no_faults 10 browser "s1" Auth.token (codes "x") some (λ t. "1")
      (some credentials) (server_with Auth.db) 200 response
      (cookies_of Auth.token (codes "x") day_later) (λ e. cc) named answered).0
