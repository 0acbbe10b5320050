-- ===== src/Account/Service/Devices.antt =====
-- What the start, the approval and the polling of a device authorization do to the tables:
-- internal/app/account/service.go, internal/infra/database/account_store.go.
pub mod LetIn
pub mod Tests
use wildman_service.Base.{
  ℕ, ◌+◌, ◌*◌, ◌<◌, String, ◌≡◌, refl, ap, ◌∙◌, inl, inr, Bool, true, false, ◌||◌, none, some, List,
  [], ◌∷◌, ◌++◌, arith, eq_iff, if◌then◌else◌, Option-cases, ◌>>=◌, ◌>>◌, Faults, length, All,
  map_option, first_where, exists_where, update_where, count_where, first_where-update_where,
  first_where-append, exists_where-weaken, count_where-none, count_where-append, int_eq, string_eq,
  nat_eq, ◌==◌, list_eq, Text, has_prefix, trim_space, ok,
}
use wildman_service.Time.{minute, before}
use wildman_service.Base64.{url, encode}
use wildman_service.Base64.Laws.{IsByte}
use wildman_service.Unicode.{to_upper}
use wildman_service.Auth
use wildman_service.Account.{
  DeviceAuthorization, DeviceStatus, pending, approved, device_status_beq,
}
use wildman_service.Account.Devices.{
  approve_row, approvable, authorized_installation, earliest_user, create_device_authorization,
  approve_device_authorization, consume_approved, consume_found, consume_device_authorization,
}
use wildman_service.Account.Devices.Once.{has_hash}
use wildman_service.Account.Support.{Environment, device_marker, DeviceStart, FiveBytes, or_error}
use wildman_service.Account.Service.{
  start_device_authorization, approve_device, answer_poll, poll_device,
}
use wildman_service.Client
use wildman_service.Client.Token.{issue_token}
use wildman_service.Client.Token.Laws.{issue_token-parse, token_of}
use wildman_service.Client.Store.{insertable}
use wildman_service.Client.Service as Service
use wildman_service.Client.Service.Inserted.{inserted-authenticate}
use wildman_service.Database.{Database, insert_audit_event}

has_prefix-append : (p s : Text) → has_prefix (p ++ s) p ≡ true
unfolding has_prefix
has_prefix-append [] s = ground arith
has_prefix-append (c ∷ p) s = ground (arith, has_prefix-append p s)

-- The user that is the earliest is in the table.
pub exists-earliest_user :
    (text_lt : ℕ → ℕ → Bool) (us : List Auth.User) (u : Auth.User)
    → earliest_user text_lt us ≡ some u
    → exists_where (λ v. v.id == u.id) us ≡ true
unfolding earliest_user exists_where
exists-earliest_user text_lt [] u h = cc
exists-earliest_user text_lt (v ∷ vs) u h = elim (Option-cases (earliest_user text_lt vs)) [
  | inl e ↦ ground (arith, rw e at h, eq_iff v.id u.id)
  | inr (w, e) ↦ ground (arith, rw e at h, eq_iff v.id u.id, exists-earliest_user text_lt vs w e)
]

-- The authorization that a start stores.
abbrev pub new_authorization : Environment → DeviceStart → String → Text → ℕ → DeviceAuthorization
new_authorization env started id client_name now = record {
  id = id;
  device_code_hash = env.digest started.device_code;
  user_code_hash = env.digest started.user_code;
  client_name = trim_space client_name;
  status = pending;
  account_id = none;
  expires_at = now + 10 * minute;
  approved_at = none;
  consumed_at = none;
  created_at = now;
}

abbrev pub shares_code : DeviceAuthorization → DeviceAuthorization → Bool
shares_code d e =
    e.id == d.id || e.device_code_hash == d.device_code_hash || e.user_code_hash == d.user_code_hash

-- The installation that a poll creates from an authorization and the bytes of its token.
abbrev pub polled_installation :
    Environment
    → DeviceAuthorization
    → Auth.User
    → String
    → List ℕ
    → List ℕ
    → ℕ
    → Client.Installation
polled_installation env d operator id p s now = record {
  id = id;
  name = d.client_name;
  token_prefix = encode url p;
  token_hash = env.digest (token_of p s);
  status = Client.active;
  created_by_user_id = operator.id;
  account_id = d.account_id;
  last_seen_at = none;
  revoked_at = none;
  created_at = now;
}

module _ {Num : Type 0} (env : Environment) (faults : Faults) where
  pub started_effect :
      (client_name : Text) (id : String) (random : List ℕ) (r : FiveBytes) (now : ℕ)
      (db : Database Num) (started : DeviceStart)
      → (start_device_authorization env faults client_name id random r now db).0 ≡ ok started
      → let d = new_authorization env started id client_name now in
        (exists_where (shares_code d) db.devices ≡ false)
        × (has_prefix started.device_code device_marker ≡ true)
        × ((start_device_authorization env faults client_name id random r now db).1
            ≡ record db { devices = db.devices ++ (d ∷ []) })
  unfolding start_device_authorization create_device_authorization
  started_effect client_name id random r now db started h =
      ground (arith, has_prefix-append device_marker (encode url random))

  pub approve_effect :
      (account_id : String) (typed : Text) (now : ℕ) (db : Database Num)
      (others : List DeviceAuthorization) (d : DeviceAuthorization)
      → exists_where (shares_code d) others ≡ false
      → db.devices ≡ others ++ (d ∷ [])
      → d.user_code_hash ≡ env.digest (to_upper env.unicode (trim_space typed))
      → d.status ≡ pending
      → env.text_lt now d.expires_at ≡ true
      → faults 0 ≡ false
      → let answer = approve_device env faults account_id typed now db in
        (answer.0 ≡ ok tt)
        × (first_where (has_hash d.device_code_hash) answer.1.devices
            ≡ some (approve_row account_id now d))
        × (answer.1.users ≡ db.users)
        × (answer.1.clients ≡ db.clients)
  unfolding approve_device approve_device_authorization approvable approve_row device_status_beq
      count_where
  approve_effect account_id typed now db others d free rows code waits soon up =
      let hash = env.digest (to_upper env.unicode (trim_space typed)) in
      let p = approvable env.text_lt hash now in
      let f = approve_row account_id now in
      let q = has_hash d.device_code_hash in
      let hit : p d ≡ true = ground (arith, waits, eq_iff d.user_code_hash hash) in
      let none_else =
        exists_where-weaken (shares_code d) p others
          (λ a found.
            ground (arith, eq_iff a.user_code_hash d.user_code_hash, eq_iff a.user_code_hash hash))
          free in
      let once : count_where p db.devices ≡ 1 =
        ap (count_where p) rows
        ∙ count_where-append p others (d ∷ [])
        ∙ ground (arith, hit, count_where-none p others none_else) in
      let alone = exists_where-weaken (shares_code d) q others (λ a found. ground arith) free in
      let row : first_where q db.devices ≡ some d =
        ap (first_where q) rows
        ∙ first_where-append q others d alone
            (ground (arith, eq_iff d.device_code_hash d.device_code_hash)) in
      let changed : (approve_device env faults account_id typed now db).1.devices
          ≡ update_where p f db.devices =
        ground (arith, up, once) in
      (
        ground (arith, up, once),
        ap (first_where q) changed
            ∙ first_where-update_where q p f db.devices (λ a. refl)
            ∙ ap (map_option (λ (a : DeviceAuthorization). if p a then f a else a)) row
            ∙ rw hit,
        ground (arith, up, once),
        ground (arith, up, once),
      )

  pub poll_effect :
      (device_code : Text) (id : String) (p s : List ℕ) (now : ℕ) (db : Database Num)
      (d : DeviceAuthorization) (operator : Auth.User)
      → All IsByte p
      → All IsByte s
      → length p ≡ 8
      → length s ≡ 32
      → has_prefix device_code device_marker ≡ true
      → first_where (has_hash (env.digest device_code)) db.devices ≡ some d
      → d.status ≡ approved
      → now < d.expires_at
      → earliest_user env.text_lt db.users ≡ some operator
      → insertable (polled_installation env d operator id p s now) db ≡ true
      → faults 0 ≡ false
      → let answer = poll_device env faults device_code id p s now db in
        (answer.0 ≡ ok (token_of p s))
        × (answer.1.clients ≡ db.clients ++ (polled_installation env d operator id p s now ∷ []))
  unfolding poll_device or_error answer_poll consume_device_authorization consume_found
      consume_approved device_status_beq insert_audit_event authorized_installation
  poll_effect device_code id p s now db d operator hp hs lp ls marked row given soon first free up =
      rw (marked, (issue_token-parse env.digest p s hp hs lp ls).0, up, row)
        (ground (arith, given, first, free))
