-- ===== src/Http/Guards/Keys.antt =====
-- The handler of a POST and the service have the same rules for an Idempotency-Key.
use wildman_service.Base.{
  ℕ, String, ◌≡◌, refl, ◌≢◌, ◌↔◌, [], ◌∷◌, arith, eq_iff, Faults, int_eq, string_eq, nat_eq, ◌==◌,
  list_beq, list_eq, codes, ok, err,
}
use wildman_service.Resolution.Service.{
  idempotency_key_required, idempotency_key_invalid, create_request,
}
use wildman_service.Database.{Database}
use wildman_service.Http.Guards.{key_valid, idempotency_key}

empty_codes : (key : String) → list_beq (codes key) [] ≡ (key == "")
unfolding list_beq
empty_codes String.[] = refl
empty_codes (String.◌∷◌ c s) =
    let filled : String.◌∷◌ c s ≢ "" = λ e. cc in ground (arith, eq_iff (String.◌∷◌ c s) "", filled)

-- A header with one value is read as this key exactly when CreateRequest, called for a client, refuses
-- the key neither as missing nor as invalid.
pub idempotency_key_iff :
    {Num : Type 0} (faults : Faults) (client_id observation_id key id : String) (now : ℕ)
    (db : Database Num)
    → client_id ≢ ""
    → let answer = (create_request faults client_id observation_id key id now db).0 in
      (idempotency_key (codes key ∷ []) ≡ ok (codes key))
      ↔ ((answer ≢ err idempotency_key_required) × (answer ≢ err idempotency_key_invalid))
unfolding create_request idempotency_key key_valid
idempotency_key_iff faults client_id observation_id key id now db named =
    ground (arith, eq_iff client_id "", empty_codes key)
