-- ===== src/Auth/Service/Sessions.antt =====
-- Which sessions let an operator in, and for how long.
use wildman_service.Base.{
  ℕ, ◌+◌, ◌≤◌, ◌<◌, String, ◌≡◌, refl, ◌≢◌, ◌⊎◌, inl, inr, false, not, ◌&&◌, ◌||◌, Option, none,
  some, List, [], arith, if◌then◌else◌, Bool-cases, Option-cases, is_some, Faults, first_where,
  first_where-true, first_where-update_where, int_eq, ◌==◌, nat_eq, string_eq, list_beq_iff,
  list_eq, Text, ok, err,
}
use wildman_service.Time.{before, elapsed}
use wildman_service.Unicode.{Unicode}
use wildman_service.Auth.{User, Session, active, user_is_active}
use wildman_service.Auth.Store.{
  SessionWithUser, with_user, find_session_by_token_hash, touch_session, revoke_session,
  revoke_session_row,
}
use wildman_service.Auth.Service.{
  store_failed, session_touch_interval, session_idle_lifetime, idle_too_long, check_session,
  authenticate, logout,
}
use wildman_service.Database.{Database}

-- A session that lets its user in at an instant.
abbrev pub IsLive : ℕ → SessionWithUser → Type 0
IsLive now r =
    (r.session.revoked_at ≡ none)
    × (r.user.status ≡ active)
    × (now < r.session.expires_at)
    × (now ≤ r.session.last_seen_at + session_idle_lifetime)

module _ {Num : Type 0} (u : Unicode) (id_key : Text → List ℕ → ℕ → ℕ → ℕ → ℕ → List ℕ)
    (hash_token : Text → String) (dummy_password_hash : Text) where
  abbrev pub row_of : Text → Database Num → Option SessionWithUser
  row_of token db = with_user db (first_where (λ s. s.token_hash == hash_token token) db.sessions)

  authenticate_row :
      (faults : Faults) (token : Text) (now : ℕ) (db : Database Num)
      → token ≢ []
      → authenticate u id_key hash_token dummy_password_hash faults token now db ≡ (
          if faults 0
          then (err store_failed, db)
          else check_session u id_key hash_token dummy_password_hash faults now
              (row_of token db)
              db)
  unfolding authenticate find_session_by_token_hash
  authenticate_row faults token now db given = elim (Bool-cases (token == [])) [
    | inl blank ↦ absurd (given ((list_beq_iff token []).0 blank))
    | inr written ↦ ground arith
  ]

  check_sound :
      (faults : Faults) (now : ℕ) (row : Option SessionWithUser) (db : Database Num) (user : User)
      → (check_session u id_key hash_token dummy_password_hash faults now row db).0 ≡ ok user
      → (r : SessionWithUser) × (row ≡ some r) × IsLive now r × (user ≡ r.user)
  unfolding check_session user_is_active idle_too_long
  check_sound faults now none db user h = cc
  check_sound faults now (some r) db user h = (r, refl, ground arith, ground arith)

  -- Whoever is let in showed a token whose hash is that of a live session, and is its user.
  pub authenticate_sound :
      (faults : Faults) (token : Text) (now : ℕ) (db : Database Num) (user : User)
      → (authenticate u id_key hash_token dummy_password_hash faults token now db).0 ≡ ok user
      → (r : SessionWithUser) × (row_of token db ≡ some r) × IsLive now r × (user ≡ r.user)
  unfolding authenticate
  authenticate_sound faults token now db user h = elim (Bool-cases (token == [])) [
    | inl blank ↦ cc (rw (authenticate, blank) at h)
    | inr written ↦ check_sound faults now (row_of token db) db user (
        ground (
          arith,
          authenticate_row faults token now db (λ e. ground (arith, list_beq_iff token [])),
        ))
  ]

  -- A live session lets its user in, if the store answers.
  pub authenticate_complete :
      (faults : Faults) (token : Text) (now : ℕ) (db : Database Num) (r : SessionWithUser)
      → faults 0 ≡ false
      → faults 1 ≡ false
      → token ≢ []
      → row_of token db ≡ some r
      → IsLive now r
      → (authenticate u id_key hash_token dummy_password_hash faults token now db).0 ≡ ok r.user
  unfolding check_session user_is_active idle_too_long touch_session
  authenticate_complete faults token now db r up₀ up₁ given found live =
      rw (authenticate_row faults token now db given, up₀, found) (ground (arith, up₁))

  revoked_row :
      (token : Text) (at : ℕ) (db : Database Num) (r : SessionWithUser)
      → row_of token (revoke_session (hash_token token) at db).1 ≡ some r
      → r.session.revoked_at ≢ none
  unfolding revoke_session revoke_session_row with_user
  revoked_row token at db r h =
      let p = λ (s : Session). s.token_hash == hash_token token in
      let q = λ (s : Session). s.token_hash == hash_token token && not (is_some s.revoked_at) in
      let moved = first_where-update_where p q (revoke_session_row at) db.sessions (λ a. refl) in
      elim (Option-cases (first_where p db.sessions)) [
        | inl gone ↦ ground (arith, moved, gone)
        | inr (s, found) ↦ ground (arith, moved, found, first_where-true p db.sessions s found)
      ]

  -- After a revocation of the session of a token nobody is let in with that token.
  revocation_stops :
      (later_faults : Faults) (token : Text) (at later : ℕ) (db : Database Num) (user : User)
      → (authenticate u id_key hash_token dummy_password_hash later_faults token later
          (revoke_session (hash_token token) at db).1).0
        ≢ ok user
  revocation_stops later_faults token at later db user h =
      let (r, row, live, same) =
        authenticate_sound later_faults token later (revoke_session (hash_token token) at db).1 user
          h in
      revoked_row token at db r row live.0

  -- Once a user has logged out, the token lets nobody in, at no instant.
  pub logout_stops :
      (faults later_faults : Faults) (token : Text) (at later : ℕ) (db : Database Num) (user : User)
      → faults 0 ≡ false
      → token ≢ []
      → (authenticate u id_key hash_token dummy_password_hash later_faults token later
          (logout u id_key hash_token dummy_password_hash faults token at db).1).0
        ≢ ok user
  unfolding logout
  logout_stops faults later_faults token at later db user up given =
      let written : (token == []) ≡ false = elim (Bool-cases (token == [])) [
        | inl blank ↦ absurd (given ((list_beq_iff token []).0 blank))
        | inr e ↦ e
      ] in
      rw (written, logout, up) (revocation_stops later_faults token at later db user)

  -- Once a session was found past its end, or idle for more than a day, its token lets nobody in, also
  -- if the clock goes back: the session was revoked, if the store answered.
  pub expiry_stops :
      (faults later_faults : Faults) (token : Text) (now later : ℕ) (db : Database Num)
      (r : SessionWithUser) (user : User)
      → faults 0 ≡ false
      → faults 1 ≡ false
      → token ≢ []
      → row_of token db ≡ some r
      → r.session.token_hash ≡ hash_token token
      → r.session.revoked_at ≡ none
      → r.user.status ≡ active
      → ((r.session.expires_at ≤ now) ⊎ (r.session.last_seen_at + session_idle_lifetime < now))
      → (authenticate u id_key hash_token dummy_password_hash later_faults token later
          (authenticate u id_key hash_token dummy_password_hash faults token now db).1).0
        ≢ ok user
  unfolding check_session user_is_active idle_too_long
  expiry_stops faults later_faults token now later db r user up₀ up₁ given found hashed fresh act
        over =
      let after : (check_session u id_key hash_token dummy_password_hash faults now (some r) db).1
          ≡ (revoke_session (hash_token token) now db).1 =
        ground (arith, up₁) in
      rw (authenticate_row faults token now db given, up₀, found)
        (rw after (revocation_stops later_faults token now later db user))

  check_frame :
      (faults : Faults) (now : ℕ) (row : Option SessionWithUser) (db : Database Num)
      → let after = (check_session u id_key hash_token dummy_password_hash faults now row db).1 in
        after ≡ record db { sessions = after.sessions }
  unfolding check_session touch_session revoke_session
  check_frame faults now none db = refl
  check_frame faults now (some r) db =
      elim (Bool-cases (is_some r.session.revoked_at || not (user_is_active r.user.status))) [
        | inl e ↦ rw e refl
        | inr e ↦
            elim (Bool-cases
              (not (before now r.session.expires_at) || idle_too_long now r.session.last_seen_at)) [
                | inl f ↦ elim (Bool-cases (faults 1)) [
                  | inl g ↦ rw (e, f, g) refl
                  | inr g ↦ rw (e, f, g) refl
                ]
                | inr f ↦
                    elim (Bool-cases (elapsed now r.session.last_seen_at session_touch_interval)) [
                      | inl k ↦ elim (Bool-cases (faults 1)) [
                        | inl g ↦ rw (e, f, k, g) refl
                        | inr g ↦ rw (e, f, k, g) refl
                      ]
                      | inr k ↦ rw (e, f, k) refl
                    ]
              ]
      ]

  -- Whoever asks, only the table of sessions changes.
  pub authenticate_frame :
      (faults : Faults) (token : Text) (now : ℕ) (db : Database Num)
      → let after = (authenticate u id_key hash_token dummy_password_hash faults token now db).1 in
        after ≡ record db { sessions = after.sessions }
  unfolding authenticate find_session_by_token_hash
  authenticate_frame faults token now db = elim (Bool-cases (token == [])) [
    | inl blank ↦ rw (authenticate, blank) refl
    | inr written ↦ elim (Bool-cases (faults 0)) [
      | inl fails ↦ rw (authenticate, written, fails) refl
      | inr works ↦ rw (authenticate, written, works) (check_frame faults now (row_of token db) db)
    ]
  ]
