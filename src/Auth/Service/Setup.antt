-- ===== src/Auth/Service/Setup.antt =====
-- The first administrator, and a log-in that follows.
use wildman_service.Base.{
  ℕ, ◌+◌, ◌≤◌, String, ◌≡◌, refl, ap, ◌∙◌, ◌≢◌, Bool, true, false, ◌||◌, some, List, [], ◌∷◌, ◌++◌,
  arith, Faults, length, All, map_option, first_where, exists_where, first_where-append,
  exists_where-weaken, int_eq, ◌==◌, nat_eq, string_eq, list_beq, list_beq_iff, eq_self, list_eq,
  Text, ok,
}
use wildman_service.Base64.Laws.{IsByte}
use wildman_service.Unicode.{Unicode}
use wildman_service.Auth.{User, Session, active, user_is_active}
use wildman_service.Auth.Password.{
  hash_password, verify_password, key_length, iterations, memory, parallelism,
}
use wildman_service.Auth.Password.RoundTrip.{verify-hash}
use wildman_service.Auth.Username.{normalize_username}
use wildman_service.Auth.Store.{
  SessionWithUser, with_user, create_initial_admin, find_user_by_username, create_session,
  session_insertable,
}
use wildman_service.Auth.Service.{
  initial_admin, login, login_as, open_session, new_session, stored_hash, or_not_verified,
  or_invalid_username, or_invalid_password, LoginResult, session_absolute_lifetime,
  session_idle_lifetime, authenticate,
}
use wildman_service.Auth.Service.Sessions.{row_of, authenticate_complete}
use wildman_service.Database.{Database}

no_users : (xs : List User) → exists_where (λ y. true) xs ≡ false → xs ≡ []
unfolding exists_where
no_users [] h = refl
no_users (x ∷ xs) h = cc

abbrev key_of : (Text → List ℕ → ℕ → ℕ → ℕ → ℕ → List ℕ) → Text → List ℕ → List ℕ
key_of id_key password salt = id_key password salt iterations memory parallelism key_length

module _ {Num : Type 0} (u : Unicode) (id_key : Text → List ℕ → ℕ → ℕ → ℕ → ℕ → List ℕ)
    (hash_token : Text → String) (dummy_password_hash : Text) where
  -- Of a setup that returned: there was no user, and the one that there is now has the normalized
  -- name and the hash of the password.
  initial_admin_effect :
      (faults : Faults) (username password : Text) (id : String) (salt : List ℕ) (now : ℕ)
      (db : Database Num) (user : User)
      → (initial_admin u id_key hash_token dummy_password_hash faults username password id salt now
          db).0
        ≡ ok user
      → (db.users ≡ [])
        × ((initial_admin u id_key hash_token dummy_password_hash faults username password id salt
              now db).1
            ≡ record db { users = db.users ++ (user ∷ []) })
        × (normalize_username u username ≡ some user.username)
        × (user.password_hash ≡ hash_password id_key password salt)
        × (user.status ≡ active)
  unfolding initial_admin create_initial_admin or_invalid_username or_invalid_password
  initial_admin_effect faults username password id salt now db user done =
      let none_yet : exists_where (λ (y : User). true) db.users ≡ false = ground arith in
      (no_users db.users none_yet, ground arith, ground arith, ground arith, ground arith)

  -- The setup creates one administrator: after it has returned, no other call of it returns.
  pub initial_admin_once :
      (faults : Faults) (username password : Text) (id : String) (salt : List ℕ) (now : ℕ)
      (db : Database Num) (user : User) (again : Faults) (username₂ password₂ : Text) (id₂ : String)
      (salt₂ : List ℕ) (later : ℕ) (other : User)
      → (initial_admin u id_key hash_token dummy_password_hash faults username password id salt now
          db).0
        ≡ ok user
      → (initial_admin u id_key hash_token dummy_password_hash again username₂ password₂ id₂ salt₂
          later
          (initial_admin u id_key hash_token dummy_password_hash faults username password id salt
            now db).1).0
        ≢ ok other
  initial_admin_once faults username password id salt now db user again username₂ password₂ id₂
        salt₂ later other done h =
      let first = initial_admin_effect faults username password id salt now db user done in
      let after =
        (initial_admin u id_key hash_token dummy_password_hash faults username password id salt now
          db).1 in
      let second = initial_admin_effect again username₂ password₂ id₂ salt₂ later after other h in
      let users : after.users ≡ user ∷ [] =
        ap (λ (d : Database Num). d.users) first.1
        ∙ ap (λ (l : List User). l ++ (user ∷ [])) first.0 in
      cc (users, second.0)

  open_session_ok :
      (faults : Faults) (user : User) (id : String) (token : Text) (now : ℕ) (db : Database Num)
      → user.status ≡ active
      → faults 1 ≡ false
      → session_insertable (new_session hash_token user id token now) db ≡ true
      → open_session u id_key hash_token dummy_password_hash faults true (some user) id token now db
        ≡ (
          ok (record { user = user; token = token; expires_at = now + session_absolute_lifetime }),
          record db { sessions = db.sessions ++ (new_session hash_token user id token now ∷ []) },
        )
  unfolding open_session create_session user_is_active new_session
  open_session_ok faults user id token now db act up free = ground arith

  -- The user whose name the log-in gives, with the password that was hashed, is logged in, if the
  -- store answers and the random id and token are new.
  pub login_ok :
      (faults : Faults) (user : User) (username password : Text) (salt : List ℕ) (id : String)
      (token : Text) (now : ℕ) (db : Database Num)
      → faults 0 ≡ false
      → faults 1 ≡ false
      → All IsByte salt
      → length salt ≡ 16
      → All IsByte (key_of id_key password salt)
      → length (key_of id_key password salt) ≡ key_length
      → normalize_username u username ≡ some user.username
      → first_where (λ v. v.username == user.username) db.users ≡ some user
      → user.password_hash ≡ hash_password id_key password salt
      → user.status ≡ active
      → session_insertable (new_session hash_token user id token now) db ≡ true
      → login u id_key hash_token dummy_password_hash faults username password id token now db ≡ (
        ok (record { user = user; token = token; expires_at = now + session_absolute_lifetime }),
        record db { sessions = db.sessions ++ (new_session hash_token user id token now ∷ []) },
      )
  unfolding login login_as find_user_by_username stored_hash or_not_verified
  login_ok faults user username password salt id token now db up₀ up₁ hs ls hk lk name found hashed
        act free =
      let same : list_beq (key_of id_key password salt) (key_of id_key password salt) ≡ true =
        (list_beq_iff _ _).1 refl in
      let verified : verify_password id_key password user.password_hash ≡ ok true =
        ap (verify_password id_key password) hashed
        ∙ verify-hash id_key password salt password hs ls hk lk
        ∙ ap (λ (b : Bool). ok b) same in
      rw (name, login, login_as, up₀, found, verified)
        (open_session_ok faults user id token now db act up₁ free)

  pub login_effect :
      (faults : Faults) (username password : Text) (id : String) (token : Text) (now : ℕ)
      (db : Database Num) (r : LoginResult)
      → (login u id_key hash_token dummy_password_hash faults username password id token now db).0
        ≡ ok r
      → (r.token ≡ token)
        × (r.user.status ≡ active)
        × (session_insertable (new_session hash_token r.user id token now) db ≡ true)
        × ((login u id_key hash_token dummy_password_hash faults username password id token now
              db).1
            ≡ record db {
              sessions = db.sessions ++ (new_session hash_token r.user id token now ∷ []);
            })
  unfolding login login_as open_session create_session find_user_by_username stored_hash
      or_not_verified user_is_active
  login_effect faults username password id token now db r done = ground arith

  -- A user who has logged in is let in by the token until a day later, if the store answers and the
  -- id finds the user again.
  pub login-authenticate :
      (faults later_faults : Faults) (username password : Text) (id : String) (token : Text)
      (now later : ℕ) (db : Database Num) (r : LoginResult)
      → later_faults 0 ≡ false
      → later_faults 1 ≡ false
      → token ≢ []
      → later ≤ now + session_idle_lifetime
      → first_where (λ v. v.id == r.user.id) db.users ≡ some r.user
      → (login u id_key hash_token dummy_password_hash faults username password id token now db).0
        ≡ ok r
      → (authenticate u id_key hash_token dummy_password_hash later_faults token later
          (login u id_key hash_token dummy_password_hash faults username password id token now
            db).1).0
        ≡ ok r.user
  login-authenticate faults later_faults username password id token now later db r up₀ up₁ given
        soon primary done =
      let (tok, act, free, rows) = login_effect faults username password id token now db r done in
      let session = new_session hash_token r.user id token now in
      let q = λ (s : Session). s.token_hash == hash_token token in
      let unseen : exists_where q db.sessions ≡ false =
        exists_where-weaken
          (λ (s : Session). s.id == session.id || s.token_hash == session.token_hash) q db.sessions
          (λ s hit. unfold new_session in ground arith)
          (unfold session_insertable in ground (arith, free)) in
      let db' =
        (login u id_key hash_token dummy_password_hash faults username password id token now
          db).1 in
      let stored : first_where q db'.sessions ≡ some session =
        ap (λ (d : Database Num). first_where q d.sessions) rows
        ∙ first_where-append q db.sessions session unseen
            (unfold new_session in eq_self (hash_token token)) in
      let users : db'.users ≡ db.users = ap (λ (d : Database Num). d.users) rows in
      let user_found : with_user db' (some session)
          ≡ some (record { session = session; user = r.user }) =
        unfold with_user new_session in
        ap
          (λ (l : List User).
            map_option
              (λ (v : User). let w : SessionWithUser = record { session = session; user = v } in w)
              (first_where (λ v. v.id == r.user.id) l))
          users
        ∙ ap
            (map_option
              (λ (v : User). let w : SessionWithUser = record { session = session; user = v } in w))
            primary in
      let joined : row_of u id_key hash_token dummy_password_hash token db'
          ≡ some (record { session = session; user = r.user }) =
        ap (with_user db') stored ∙ user_found in
      authenticate_complete u id_key hash_token dummy_password_hash later_faults token later db'
        (record { session = session; user = r.user }) up₀ up₁ given joined
        (unfold new_session in (refl, act, omega arith, omega arith))
