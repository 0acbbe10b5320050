-- ===== src/Account/Service/Charges.antt =====
-- ConsumeQuota of internal/app/account/service.go in terms of the store.
use wildman_service.Base.{
  ℕ, String, ◌≡◌, refl, ◌⊎◌, inl, inr, true, arith, Bool-cases, Faults, int_eq, string_eq, nat_eq,
  list_eq, ok, err,
}
use wildman_service.Account.Support.{Environment, store_failed}
use wildman_service.Account.Quota.{consume_resolution_quota}
use wildman_service.Account.Service.{consume_quota}
use wildman_service.Database.{Database}

module _ {Num : Type 0} (env : Environment) (faults : Faults) (client_id key : String) (now : ℕ)
    (db : Database Num) where
  pub consume_quota-ok :
      (consume_quota env faults client_id key now db).0 ≡ ok tt
      → ((consume_resolution_quota client_id key (env.month_of now) now db).0 ≡ ok true)
        × ((consume_quota env faults client_id key now db).1
            ≡ (consume_resolution_quota client_id key (env.month_of now) now db).1)
  unfolding consume_quota
  consume_quota-ok h = ground (arith, h)

  -- Where the store lets it through and changes nothing, the service does so or fails.
  pub consume_quota-free :
      consume_resolution_quota client_id key (env.month_of now) now db ≡ (ok true, db)
      → (consume_quota env faults client_id key now db ≡ (ok tt, db))
        ⊎ (consume_quota env faults client_id key now db ≡ (err store_failed, db))
  unfolding consume_quota
  consume_quota-free h = elim (Bool-cases (faults 0)) [
    | inl e ↦ inr (rw e refl)
    | inr e ↦ inl (rw (e, h) refl)
  ]
