-- ===== src/Client/Service/Inserted.antt =====
-- An installation that was just inserted, and its token: internal/app/client/service.go,
-- internal/infra/database/client_store.go.
use wildman_service.Base.{
  ℕ, String, ◌≡◌, ap, ◌∙◌, Bool, true, false, ◌||◌, none, some, List, [], ◌∷◌, ◌++◌, arith, eq_iff,
  Faults, length, All, first_where, exists_where, count_where, first_where-append,
  exists_where-weaken, count_where-none, count_where-append, int_eq, string_eq, nat_eq, ◌==◌,
  list_beq_iff, list_eq, Text, ok,
}
use wildman_service.Base64.{url, encode}
use wildman_service.Base64.Laws.{IsByte}
use wildman_service.Client.{Installation, is_active}
use wildman_service.Client.Token.Laws.{issue_token-parse, token_of}
use wildman_service.Client.Store.{insertable, touch_client_installation, has_token, is_active_row}
use wildman_service.Client.Service.{admit, authenticate, touch_due}
use wildman_service.Client.Service.Authentication.{authenticate_parsed, looked_up}
use wildman_service.Database.{Database}

-- A query that implies the uniqueness test finds only the row that was just inserted.
module _ {Num : Type 0} (i : Installation) (db : Database Num) (free : insertable i db ≡ true) where
  unique_test : Installation → Bool
  unique_test j = j.id == i.id || j.token_prefix == i.token_prefix || j.token_hash == i.token_hash

  unique : exists_where unique_test db.clients ≡ false
  unfolding insertable unique_test
  unique = ground arith

  found_by_token :
      (prefix : Text) (hash : String)
      → i.token_prefix ≡ prefix
      → i.token_hash ≡ hash
      → first_where (has_token prefix hash) (db.clients ++ (i ∷ [])) ≡ some i
  unfolding has_token unique_test
  found_by_token prefix hash p h =
      first_where-append (has_token prefix hash) db.clients i
        (exists_where-weaken unique_test (has_token prefix hash) db.clients
          (λ a hit.
            ground (
              arith,
              list_beq_iff a.token_prefix prefix,
              list_beq_iff a.token_prefix i.token_prefix,
            ))
          unique)
        (ground (arith, list_beq_iff i.token_prefix prefix, eq_iff i.token_hash hash))

  counted_once : is_active i ≡ true → count_where (is_active_row i.id) (db.clients ++ (i ∷ [])) ≡ 1
  unfolding is_active_row is_active unique_test count_where
  counted_once act =
      count_where-append (is_active_row i.id) db.clients (i ∷ [])
      ∙ ground (
        arith,
        eq_iff i.id i.id,
        count_where-none (is_active_row i.id) db.clients (
            exists_where-weaken unique_test (is_active_row i.id) db.clients (λ a hit. ground arith)
              unique),
      )

-- The token of an installation that was inserted lets in, at any instant, as the row with its first
-- use noted, if the store answers.
pub inserted-authenticate :
    {Num : Type 0} (sha256_base64 : Text → String) (text_lt : ℕ → ℕ → Bool) (faults : Faults)
    (p s : List ℕ) (later : ℕ) (i : Installation) (db db' : Database Num)
    → All IsByte p
    → All IsByte s
    → length p ≡ 8
    → length s ≡ 32
    → insertable i db ≡ true
    → db'.clients ≡ db.clients ++ (i ∷ [])
    → i.token_prefix ≡ encode url p
    → i.token_hash ≡ sha256_base64 (token_of p s)
    → is_active i ≡ true
    → i.last_seen_at ≡ none
    → faults 0 ≡ false
    → faults 1 ≡ false
    → (authenticate sha256_base64 text_lt faults later (token_of p s) db').0
      ≡ ok (record i { last_seen_at = some later })
unfolding admit touch_client_installation looked_up touch_due
inserted-authenticate sha256_base64 text_lt faults p s later i db db' hp hs lp ls free rows prefix
      hash act first_use up₀ up₁ =
    let token = token_of p s in
    let good = (issue_token-parse sha256_base64 p s hp hs lp ls).1 in
    let row : first_where (has_token (encode url p) (sha256_base64 token)) db'.clients ≡ some i =
      ap (first_where (has_token (encode url p) (sha256_base64 token))) rows
      ∙ found_by_token i db free (encode url p) (sha256_base64 token) prefix hash in
    let once : count_where (is_active_row i.id) db'.clients ≡ 1 =
      ap (count_where (is_active_row i.id)) rows ∙ counted_once i db free act in
    rw
      (
        authenticate_parsed sha256_base64 text_lt faults later token (encode url p) db' good,
        up₀,
        row,
      )
      (ground (arith, act, first_use, once, up₁))
