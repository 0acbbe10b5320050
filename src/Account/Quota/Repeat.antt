-- ===== src/Account/Quota/Repeat.antt =====
-- A repeated request costs nothing, and a refusal changes nothing.
use wildman_service.Base.{
  ℕ, String, ◌≡◌, refl, ap, ◌∙◌, ◌≢◌, Bool, true, Option, none, some, List, [], ◌∷◌, ◌++◌, arith,
  eq_iff, first_where, exists_where, int_eq, string_eq, nat_eq, ◌==◌, list_eq, ok,
}
use wildman_service.Account.{Subscription}
use wildman_service.Client
use wildman_service.Account.Quota.{
  charge, is_consumption_of, consume_with, consume_for, consume_resolution_quota,
}
use wildman_service.Database.{Database, Consumption}

exists-snoc :
    {A : Type 0} (p : A → Bool) (xs : List A) (x : A)
    → p x ≡ true
    → exists_where p (xs ++ (x ∷ [])) ≡ true
unfolding exists_where
exists-snoc p [] x h = rw h
exists-snoc p (y ∷ xs) x h = ground (arith, exists-snoc p xs x h)

-- A result that is not `true` changes nothing: the transaction is rolled back.
pub consume-refused :
    {Num : Type 0} (client_id key period : String) (now : ℕ) (db : Database Num)
    → (consume_resolution_quota client_id key period now db).0 ≢ ok true
    → (consume_resolution_quota client_id key period now db).1 ≡ db
unfolding consume_resolution_quota consume_for consume_with
consume-refused client_id key period now db refused = ground arith

exists-charged :
    (client_id key account_id period : String) (now : ℕ) (cs : List Consumption)
    → exists_where
        (is_consumption_of client_id key)
        (cs ++ (charge client_id key account_id period now ∷ []))
      ≡ true
unfolding is_consumption_of charge
exists-charged client_id key account_id period now cs =
    exists-snoc (is_consumption_of client_id key) cs (charge client_id key account_id period now)
      (ground (arith, eq_iff client_id client_id, eq_iff key key))

recorded :
    {Num : Type 0} (client_id key period account_id : String) (now : ℕ) (db : Database Num)
    (o : Option Subscription)
    → (consume_with client_id account_id key period now o db).0 ≡ ok true
    → exists_where
        (is_consumption_of client_id key)
        (consume_with client_id account_id key period now o db).1.consumptions
      ≡ true
unfolding consume_with
recorded client_id key period account_id now db none h = cc
recorded client_id key period account_id now db (some s) h =
    ground (arith, exists-charged client_id key account_id period now db.consumptions)

pub clients_kept :
    {Num : Type 0} (client_id key period : String) (now : ℕ) (db : Database Num)
    → (consume_resolution_quota client_id key period now db).1.clients ≡ db.clients
unfolding consume_resolution_quota consume_for consume_with
clients_kept client_id key period now db = ground arith

recorded_for :
    {Num : Type 0} (client_id key period account_id : String) (now : ℕ) (db : Database Num)
    (i : Client.Installation)
    → i.account_id ≡ some account_id
    → (consume_for client_id key period now (some i) db).0 ≡ ok true
    → exists_where
        (is_consumption_of client_id key)
        (consume_for client_id key period now (some i) db).1.consumptions
      ≡ true
unfolding consume_for
recorded_for client_id key period account_id now db i e h = ground (
  arith,
  recorded client_id key period account_id now db
      (first_where (λ s. s.account_id == account_id) db.subscriptions),
)

-- A consumption that was let through is seen by every later state that has kept the clients and the
-- consumptions.
pub consume-later :
    {Num : Type 0} (client_id key period later_period : String) (now later : ℕ)
    (db after : Database Num)
    → (consume_resolution_quota client_id key period now db).0 ≡ ok true
    → after.clients ≡ db.clients
    → after.consumptions ≡ (consume_resolution_quota client_id key period now db).1.consumptions
    → consume_resolution_quota client_id key later_period later after ≡ (ok true, after)
unfolding consume_resolution_quota consume_for
consume-later {Num} client_id key period later_period now later db after h same kept =
    by_client (first_where (λ i. i.id == client_id) db.clients) refl
  where
    by_account :
        (i : Client.Installation) (o : Option String)
        → first_where (λ i. i.id == client_id) db.clients ≡ some i
        → i.account_id ≡ o
        → consume_for client_id key later_period later (some i) after ≡ (ok true, after)
    by_account i none found e = rw (consume_for, e)
    by_account i (some account_id) found e =
        let seen : exists_where (is_consumption_of client_id key) after.consumptions ≡ true =
          ground (arith, found, kept, recorded_for client_id key period account_id now db i e) in
        rw (consume_for, e, seen)

    by_client :
        (o : Option Client.Installation)
        → first_where (λ i. i.id == client_id) db.clients ≡ o
        → consume_for client_id key later_period later
            (first_where (λ i. i.id == client_id) after.clients)
            after
          ≡ (ok true, after)
    by_client none found = absurd (ground (arith, found))
    by_client (some i) found =
        ap
          (λ clients.
            consume_for client_id key later_period later
              (first_where (λ i. i.id == client_id) clients) after)
          same
        ∙ rw found (by_account i i.account_id found refl)

-- A client that repeats a request that was let through, in the same month or a later one, is let
-- through again and is not charged again: nothing changes.
pub consume-again :
    {Num : Type 0} (client_id key period later_period : String) (now later : ℕ) (db : Database Num)
    → (consume_resolution_quota client_id key period now db).0 ≡ ok true
    → let r = consume_resolution_quota client_id key period now db in
      consume_resolution_quota client_id key later_period later r.1 ≡ (ok true, r.1)
consume-again client_id key period later_period now later db h =
    consume-later client_id key period later_period now later db _ h
      (clients_kept client_id key period now db) refl
