-- ===== src/Account/Devices/Once.antt =====
-- What consuming a device authorization does, and that it happens once.
use wildman_service.Base.{
  ℕ, ◌<◌, String, ◌≡◌, refl, ap, ◌∙◌, ◌⊎◌, inl, inr, Bool, Option, none, some, [], ◌∷◌, ◌++◌, arith,
  if◌then◌else◌, Option-cases, Result, StoreError, map_option, first_where, update_where,
  first_where-true, first_where-update_where, int_eq, ◌==◌, nat_eq, string_eq, list_eq, ok,
}
use wildman_service.Auth
use wildman_service.Account.{
  DeviceAuthorization, DeviceStatus, approved, consumed, device_status_beq,
}
use wildman_service.Client
use wildman_service.Account.Devices.{
  consume_row, consumable, authorized_installation, earliest_user, consume_found,
  consume_device_authorization,
}
use wildman_service.Database.{Database}

abbrev pub has_hash : String → DeviceAuthorization → Bool
has_hash hash d = d.device_code_hash == hash

module _ {Num : Type 0} (text_lt : ℕ → ℕ → Bool) (hash : String) (i : Client.Installation) (now : ℕ)
    (db : Database Num) where
  abbrev consumed_by : Result StoreError (Option DeviceStatus) × Database Num
  consumed_by = consume_device_authorization text_lt hash i now db

  -- An authorization that is consumed was approved and not expired, and creates one installation,
  -- for its account and under its name.
  pub consume_effect :
      consumed_by.0 ≡ ok (some approved)
      → (d : DeviceAuthorization) × (operator : Auth.User) × (first_where (has_hash hash) db.devices
          ≡ some d)
        × (d.status ≡ approved)
        × (now < d.expires_at)
        × (consumed_by.1.clients ≡ db.clients ++ (authorized_installation d operator i ∷ []))
        × (consumed_by.1.devices ≡ update_where (consumable hash) (consume_row now) db.devices)
  unfolding consume_device_authorization consume_found
  consume_effect h = elim (Option-cases (first_where (has_hash hash) db.devices)) [
    | inl gone ↦ absurd (ground (arith, gone))
    | inr (d, found) ↦ elim (Option-cases (earliest_user text_lt db.users)) [
      | inl nobody ↦ absurd (ground (arith, found, nobody))
      | inr (operator, first) ↦ (
        d,
        operator,
        found,
        ground (arith, found, first),
        ground (arith, found, first),
        ground (arith, found, first),
        ground (arith, found, first),
      )
    ]
  ]

  -- The row of a consumed authorization is consumed.
  row_consumed :
      consumed_by.0 ≡ ok (some approved)
      → (d : DeviceAuthorization) × (first_where (has_hash hash) consumed_by.1.devices ≡ some d)
        × (d.status ≡ consumed)
  unfolding consumable consume_row
  row_consumed h =
      let (d, operator, found, status, soon, clients, devices) = consume_effect h in
      let hit = first_where-true (has_hash hash) db.devices d found in
      (
        consume_row now d,
        ap (first_where (has_hash hash)) devices
            ∙ first_where-update_where (has_hash hash) (consumable hash) (consume_row now)
                db.devices (λ a. refl)
            ∙ ap
                (map_option
                  (λ (a : DeviceAuthorization). if consumable hash a then consume_row now a else a))
                found
            ∙ unfold device_status_beq in ground (arith, hit, status),
        refl,
      )

spent_row :
    {Num : Type 0} (text_lt : ℕ → ℕ → Bool) (hash : String) (j : Client.Installation) (later : ℕ)
    (db : Database Num) (d : DeviceAuthorization)
    → first_where (has_hash hash) db.devices ≡ some d
    → d.status ≡ consumed
    → let again = consume_device_authorization text_lt hash j later db in
      ((again.0 ≡ ok (some consumed)) ⊎ (again.0 ≡ ok none)) × (again.1 ≡ db)
unfolding consume_device_authorization consume_found device_status_beq
spent_row text_lt hash j later db d row status = ground (arith, row, status)

-- A device code that was consumed yields no second installation: whoever shows it again, at whatever
-- instant, is told that it was consumed, or that there is no such code, and nothing changes.
pub consume_once :
    {Num : Type 0} (text_lt : ℕ → ℕ → Bool) (hash : String) (i j : Client.Installation)
    (now later : ℕ) (db : Database Num)
    → (consume_device_authorization text_lt hash i now db).0 ≡ ok (some approved)
    → let after = (consume_device_authorization text_lt hash i now db).1 in
      let again = consume_device_authorization text_lt hash j later after in
      ((again.0 ≡ ok (some consumed)) ⊎ (again.0 ≡ ok none)) × (again.1 ≡ after)
consume_once text_lt hash i j now later db h =
    let (d, row, status) = row_consumed text_lt hash i now db h in
    spent_row text_lt hash j later (consume_device_authorization text_lt hash i now db).1 d row
      status
