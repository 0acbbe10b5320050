-- ===== src/Auth/Service/Tests.antt =====
-- An administrator who logs in, is let in and logs out, and the theorems at that run.
use wildman_service.Base.{
  ℕ, zero, suc, ◌+◌, ◌*◌, ◌%◌, String, ◌≡◌, refl, ◌≢◌, inr, true, none, some, List, [], ◌∷◌, arith,
  no_faults, length, first_where, exists_where, int_eq, string_eq, nat_eq, ◌==◌, list_beq, list_eq,
  Text, codes, byte_length, all_codes, trim_space, ok,
}
use wildman_service.Time.{hour, day}
use wildman_service.Unicode.{ascii}
use wildman_service.Auth.{User, Session, active}
use wildman_service.Auth.Password.{hash_password, verify_password, validate_password}
use wildman_service.Auth.Password.RoundTrip.{verify-hash}
use wildman_service.Auth.Username.{normalize_username}
use wildman_service.Auth.Store.{
  SessionWithUser, session_insertable, with_user, create_initial_admin,
}
use wildman_service.Auth.Service.{
  initial_admin, login, authenticate, logout, new_session, or_invalid_username, or_invalid_password,
  session_absolute_lifetime,
}
use wildman_service.Auth.Service.Sessions.{
  IsLive, authenticate_sound, authenticate_complete, logout_stops, expiry_stops,
}
use wildman_service.Auth.Service.Setup.{initial_admin_once, login_ok}
use wildman_service.Database.{Database, empty}

abbrev pub copies : ℕ → ℕ → List ℕ
copies zero b = []
copies (suc n) b = b ∷ copies n b

-- A key function that is good enough for a test: its bytes are the length of the password.
abbrev pub id_key : Text → List ℕ → ℕ → ℕ → ℕ → ℕ → List ℕ
id_key password salt t m p n = copies n (length password % 256)

abbrev pub hash_token : Text → String
hash_token t = "h"

abbrev salt : List ℕ
salt = copies 16 7

abbrev pub token : Text
token = codes "t"

abbrev pub admin : User
admin = record {
  id = "u1";
  username = codes "admin";
  password_hash = hash_password id_key (codes "secret") salt;
  status = active;
  created_at = 5;
  updated_at = 5;
}

abbrev pub db : Database ℕ
db = record empty { users = admin ∷ [] }

abbrev pub session : Session
session = record {
  id = "s1";
  user_id = "u1";
  token_hash = "h";
  expires_at = 7 * day + 10;
  last_seen_at = 10;
  revoked_at = none;
  created_at = 10;
}

abbrev pub logged_in : Database ℕ
logged_in = record db { sessions = session ∷ [] }

abbrev pub row : SessionWithUser
row = record { session = session; user = admin }

setup :
    (initial_admin ascii id_key hash_token [] no_faults
      (codes " Admin ")
      (codes "secret")
      "u1"
      salt
      5
      (empty {Num = ℕ})).0
    ≡ ok admin
unfolding initial_admin create_initial_admin or_invalid_username or_invalid_password
    normalize_username validate_password trim_space all_codes exists_where byte_length
setup = refl

verify-hash_example :
    verify_password id_key (codes "secret") (hash_password id_key (codes "secret") salt) ≡ ok true
unfolding list_beq
verify-hash_example =
    verify-hash id_key (codes "secret") salt (codes "secret") (omega arith) refl (omega arith) refl

initial_admin_once_example :
    (initial_admin ascii id_key hash_token [] no_faults
      (codes "other")
      (codes "secret")
      "u2"
      salt
      6
      (initial_admin ascii id_key hash_token [] no_faults
        (codes " Admin ")
        (codes "secret")
        "u1"
        salt
        5
        (empty {Num = ℕ})).1).0
    ≢ ok admin
initial_admin_once_example =
    initial_admin_once ascii id_key hash_token [] no_faults (codes " Admin ") (codes "secret") "u1"
      salt 5 empty admin no_faults (codes "other") (codes "secret") "u2" salt 6 admin setup

named : normalize_username ascii (codes " Admin ") ≡ some admin.username
unfolding normalize_username trim_space all_codes
named = refl

found : first_where (λ v. v.username == admin.username) db.users ≡ some admin
unfolding first_where list_beq
found = refl

free : session_insertable (new_session hash_token admin "s1" token 10) db ≡ true
unfolding session_insertable new_session exists_where
free = refl

written : token ≢ []
written e = cc

primary : first_where (λ v. v.id == admin.id) db.users ≡ some admin
unfolding first_where
primary = refl

pub login_ok_here :
    login ascii id_key hash_token [] no_faults (codes " Admin ") (codes "secret") "s1" token 10 db
    ≡ (
      ok (record { user = admin; token = token; expires_at = 10 + session_absolute_lifetime }),
      record db { sessions = new_session hash_token admin "s1" token 10 ∷ [] },
    )
login_ok_here =
    login_ok ascii id_key hash_token [] no_faults admin (codes " Admin ") (codes "secret") salt "s1"
      token 10 db refl refl (omega arith) refl (omega arith) refl named found refl refl free

row_found :
    with_user logged_in (first_where (λ s. s.token_hash == "h") logged_in.sessions) ≡ some row
unfolding with_user first_where
row_found = refl

authenticate_complete_here :
    (authenticate ascii id_key hash_token [] no_faults token 20 logged_in).0 ≡ ok admin
authenticate_complete_here =
    authenticate_complete ascii id_key hash_token [] no_faults token 20 logged_in row refl refl
      written row_found (refl, refl, omega arith, omega arith)

authenticate_sound_example :
    (r : SessionWithUser) × (with_user logged_in
        (first_where (λ s. s.token_hash == "h") logged_in.sessions)
      ≡ some r)
    × IsLive 20 r
    × (admin ≡ r.user)
authenticate_sound_example =
    authenticate_sound ascii id_key hash_token [] no_faults token 20 logged_in admin
      authenticate_complete_here

logout_stops_example :
    (authenticate ascii id_key hash_token [] no_faults token 20
      (logout ascii id_key hash_token [] no_faults token 15 logged_in).1).0
    ≢ ok admin
logout_stops_example =
    logout_stops ascii id_key hash_token [] no_faults no_faults token 15 20 logged_in admin refl
      written

-- Idle for a day and a second, and then the clock goes back.
expiry_stops_example :
    (authenticate ascii id_key hash_token [] no_faults token 20
      (authenticate ascii id_key hash_token [] no_faults token (25 * hour) logged_in).1).0
    ≢ ok admin
expiry_stops_example =
    expiry_stops ascii id_key hash_token [] no_faults no_faults token (25 * hour) 20 logged_in row
      admin refl refl written row_found refl refl refl (inr (omega arith))
