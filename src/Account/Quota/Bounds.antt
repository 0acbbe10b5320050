-- ===== src/Account/Quota/Bounds.antt =====
-- The quota is never exceeded.
use wildman_service.Base.{
  ℕ, ◌+◌, ◌≤◌, String, ◌≡◌, refl, subst, ◌∙◌, ◌⊎◌, inl, inr, Bool, true, false, not, ◌&&◌, ◌||◌,
  Option, none, some, List, [], ◌∷◌, ◌++◌, arith, eq_iff, if◌then◌else◌, Bool-cases, map_option,
  first_where, exists_where, count_where, count_where-append, ℤ, pos_part, ltb_ℤ, int_eq, string_eq,
  nat_eq, ◌==◌, list_eq, pos,
}
use wildman_service.Account.{Subscription}
use wildman_service.Client
use wildman_service.Account.Quota.{
  charge, is_usage_of, is_consumption_of, below_quota, add_one, count_usage, consume_with,
  consume_for, consume_resolution_quota,
}
use wildman_service.Database.{Database, Consumption, Usage}

-- The counted resolutions of an account in a month.
abbrev usage : String → String → List Usage → ℕ
usage account_id period [] = 0
usage account_id period (v ∷ vs) =
    if is_usage_of account_id period v then v.resolutions else usage account_id period vs

count_usage_self :
    (account_id period : String) (quota : ℤ) (vs : List Usage)
    → (count_usage account_id period quota vs).0 ≡ true
    → ltb_ℤ (pos 0) quota ≡ true
    → (usage account_id period (count_usage account_id period quota vs).1
        ≡ usage account_id period vs + 1)
      × (usage account_id period vs + 1 ≤ pos_part quota)
unfolding count_usage add_one below_quota is_usage_of
count_usage_self account_id period quota [] h positive =
    ground (arith, eq_iff account_id account_id, eq_iff period period)
count_usage_self account_id period quota (v ∷ vs) h positive =
    ground (arith, count_usage_self account_id period quota vs)

count_usage_other :
    (account_id period a p : String) (quota : ℤ) (vs : List Usage)
    → ((account_id == a) ≡ false) ⊎ ((period == p) ≡ false)
    → usage a p (count_usage account_id period quota vs).1 ≡ usage a p vs
unfolding count_usage add_one below_quota is_usage_of
count_usage_other account_id period a p quota [] h = ground arith
count_usage_other account_id period a p quota (v ∷ vs) h = ground (
  arith,
  count_usage_other account_id period a p quota vs h,
  eq_iff v.account_id account_id,
  eq_iff v.period period,
)

-- The consumed keys of an account in a month.
abbrev is_charge : String → String → Consumption → Bool
is_charge account_id period c = c.account_id == account_id && c.period == period

charges-snoc :
    (a p : String) (cs : List Consumption) (c : Consumption)
    → count_where (is_charge a p) (cs ++ (c ∷ []))
      ≡ count_where (is_charge a p) cs + (if is_charge a p c then 1 else 0)
unfolding count_where
charges-snoc a p cs c = count_where-append (is_charge a p) cs (c ∷ []) ∙ ground arith

-- An account whose charges in a month are as many as its counted resolutions, within its quota.
pub record WithinQuota {Num : Type 0} (a p : String) (q : ℤ) (db : Database Num) : Type 0 where
  pub quota :
      map_option (λ s. s.monthly_quota) (first_where (λ s. s.account_id == a) db.subscriptions)
      ≡ some q
  pub counted : count_where (is_charge a p) db.consumptions ≡ usage a p db.usages
  pub bounded : usage a p db.usages ≤ pos_part q

module _ {Num : Type 0} (client_id key period : String) (now : ℕ) where
  -- The charge of an account that has room, seen from the account `a` in the month `p`.
  charged-WithinQuota :
      (account_id a p : String) (quota q : ℤ) (db : Database Num)
      → (account_id ≡ a → quota ≡ q)
      → ltb_ℤ (pos 0) quota ≡ true
      → (count_usage account_id period quota db.usages).0 ≡ true
      → WithinQuota a p q db
      → WithinQuota a p q (record db {
        consumptions = db.consumptions ++ (charge client_id key account_id period now ∷ []);
        usages = (count_usage account_id period quota db.usages).1;
      })
  unfolding charge
  charged-WithinQuota account_id a p quota q db agree positive changed w =
      let snoc = charges-snoc a p db.consumptions (charge client_id key account_id period now) in
      elim (Bool-cases (account_id == a)) [
        | inr other ↦
            let kept = count_usage_other account_id period a p quota db.usages (inl other) in
            record {
              quota = w.quota;
              counted = ground (arith, w.counted, snoc, kept, other);
              bounded = ground (arith, w.bounded, kept);
            }
        | inl same ↦ elim (Bool-cases (period == p)) [
          | inr other ↦
              let kept = count_usage_other account_id period a p quota db.usages (inr other) in
              record {
                quota = w.quota;
                counted = ground (arith, w.counted, snoc, kept, other);
                bounded = ground (arith, w.bounded, kept);
              }
          | inl now_too ↦
              let e₁ = (eq_iff account_id a).0 same in
              let e₂ = (eq_iff period p).0 now_too in
              let self = count_usage_self account_id period quota db.usages changed positive in
              let moved : usage a p (count_usage account_id period quota db.usages).1
                  ≡ usage a p db.usages + 1 =
                subst
                  (λ x.
                    usage x p (count_usage account_id period quota db.usages).1
                    ≡ usage x p db.usages + 1)
                  e₁
                  (subst
                    (λ y.
                      usage account_id y (count_usage account_id period quota db.usages).1
                      ≡ usage account_id y db.usages + 1)
                    e₂ self.0) in
              let room : usage a p db.usages + 1 ≤ pos_part q =
                subst (λ x. usage x p db.usages + 1 ≤ pos_part q) e₁
                  (subst (λ y. usage account_id y db.usages + 1 ≤ pos_part q) e₂
                    (subst (λ z. usage account_id period db.usages + 1 ≤ pos_part z) (agree e₁)
                      self.1)) in
              record {
                quota = w.quota;
                counted = ground (arith, w.counted, snoc, moved, same, now_too);
                bounded = omega (arith, moved, room);
              }
        ]
      ]

  by_row :
      (account_id a p : String) (q : ℤ) (db : Database Num) (o : Option Subscription)
      → first_where (λ s. s.account_id == account_id) db.subscriptions ≡ o
      → WithinQuota a p q db
      → WithinQuota a p q (consume_with client_id account_id key period now o db).1
  unfolding consume_with charge
  by_row account_id a p q db none e w = w
  by_row account_id a p q db (some s) e w =
      let agree : account_id ≡ a → s.monthly_quota ≡ q = λ same.
        let e' : first_where (λ t. t.account_id == a) db.subscriptions ≡ some s =
          subst (λ x. first_where (λ t. t.account_id == x) db.subscriptions ≡ some s) same e in
        ground (arith, w.quota, e') in
      elim (Bool-cases (not (s.status == "active") || not (ltb_ℤ (pos 0) s.monthly_quota))) [
        | inl shut ↦ rw (consume_with, shut) w
        | inr usable ↦
            elim (Bool-cases (count_usage account_id period s.monthly_quota db.usages).0) [
              | inl changed ↦
                  rw (consume_with, usable, changed)
                    (charged-WithinQuota account_id a p s.monthly_quota q db agree (ground arith)
                      changed w)
              | inr full ↦ rw (consume_with, usable, full) w
            ]
      ]

  -- An account that is within its quota in a month, with as many charges as counted resolutions,
  -- stays so whatever request for a resolution is made, by whichever client and in whichever
  -- month.
  pub consume-WithinQuota :
      (a p : String) (q : ℤ) (db : Database Num)
      → WithinQuota a p q db
      → WithinQuota a p q (consume_resolution_quota client_id key period now db).1
  unfolding consume_resolution_quota consume_for
  consume-WithinQuota a p q db w = by_client (first_where (λ i. i.id == client_id) db.clients)
    where
      by_account :
          (i : Client.Installation) (o : Option String)
          → i.account_id ≡ o
          → WithinQuota a p q (consume_for client_id key period now (some i) db).1
      by_account i none e = rw (consume_for, e) w
      by_account i (some account_id) e =
          elim (Bool-cases (exists_where (is_consumption_of client_id key) db.consumptions)) [
            | inl old ↦ rw (consume_for, e, old) w
            | inr new ↦ rw (consume_for, e, new) (by_row account_id a p q db _ refl w)
          ]

      by_client :
          (o : Option Client.Installation)
          → WithinQuota a p q (consume_for client_id key period now o db).1
      by_client none = w
      by_client (some i) = by_account i i.account_id refl
