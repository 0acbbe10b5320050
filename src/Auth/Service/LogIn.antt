-- ===== src/Auth/Service/LogIn.antt =====
-- Whom a log-in lets in.
use wildman_service.Base.{
  ℕ, String, ◌≡◌, subst, inl, inr, Bool, Option, none, some, List, [], ◌∷◌, arith, Bool-cases,
  Option-cases, Faults, All, first_where, int_eq, string_eq, nat_eq, ◌==◌, list_eq, Text, ok,
}
use wildman_service.Unicode.{Unicode}
use wildman_service.Auth.{User, user_is_active}
use wildman_service.Auth.Username.{normalize_username}
use wildman_service.Auth.Store.{find_user_by_username, create_session}
use wildman_service.Auth.Service.{
  LoginResult, login, login_as, open_session, stored_hash, or_not_verified,
}
use wildman_service.Database.{Database}

first_where-All :
    {A : Type 0} (P : A → Type 0) (p : A → Bool) (xs : List A) (a : A)
    → All P xs
    → first_where p xs ≡ some a
    → P a
unfolding first_where
first_where-All P p [] a h e = cc
first_where-All P p (x ∷ xs) a h e = elim (Bool-cases (p x)) [
  | inl hit ↦ subst P (ground (arith, rw hit at e)) h.0
  | inr miss ↦ first_where-All P p xs a h.1 (rw miss at e)
]

module _ {Num : Type 0} (u : Unicode) (id_key : Text → List ℕ → ℕ → ℕ → ℕ → ℕ → List ℕ)
    (hash_token : Text → String) (dummy_password_hash : Text) where
  found_as :
      (faults : Faults) (password : Text) (id : String) (token : Text) (now : ℕ)
      (name : Option Text) (db : Database Num) (r : LoginResult)
      → (login_as u id_key hash_token dummy_password_hash faults password id token now name db).0
        ≡ ok r
      → (wanted : Text) × (first_where (λ v. v.username == wanted) db.users ≡ some r.user)
  unfolding login_as open_session create_session find_user_by_username stored_hash or_not_verified
      user_is_active
  found_as faults password id token now none db r h = absurd (ground (arith, h))
  found_as faults password id token now (some name) db r h =
      elim (Option-cases (first_where (λ v. v.username == name) db.users)) [
        | inl nobody ↦ absurd (ground (arith, h, nobody))
        | inr (user, found) ↦ (name, ground (arith, h, found))
      ]

  -- The user of a log-in satisfies what holds of every row of the table.
  pub login-All :
      (P : User → Type 0) (faults : Faults) (username password : Text) (id : String) (token : Text)
      (now : ℕ) (db : Database Num) (r : LoginResult)
      → All P db.users
      → (login u id_key hash_token dummy_password_hash faults username password id token now db).0
        ≡ ok r
      → P r.user
  unfolding login
  login-All P faults username password id token now db r hs h =
      let (wanted, found) =
        found_as faults password id token now (normalize_username u username) db r h in
      first_where-All P (λ v. v.username == wanted) db.users r.user hs found
