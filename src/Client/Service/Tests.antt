-- ===== src/Client/Service/Tests.antt =====
-- One installation from its creation to its deletion, and the theorems at it.
use wildman_service.Base.{
  ℕ, String, ◌≡◌, refl, Bool, none, some, List, [], ◌∷◌, ◌++◌, arith, ltb, no_faults, first_where,
  exists_where, update_where, count_where, int_eq, string_eq, nat_eq, list_beq, list_eq, Text,
  codes, has_prefix, trim_space, ok, err,
}
use wildman_service.Base64.{url, encode, decode}
use wildman_service.Client.{Installation, active, revoked}
use wildman_service.Client.Token.{parse_token, issue_token, valid_token_segment, digest_token}
use wildman_service.Client.Token.Laws.{IsIssued, token_of, issue_token-parse, parse_token_sound}
use wildman_service.Client.Store.{
  create_client_installation, revoke_client_installation, has_token,
  find_client_installation_by_token, touch_client_installation,
}
use wildman_service.Client.Service.{installation_revoked, create, authenticate, revoke, delete}
use wildman_service.Client.Service.Lifecycle.{
  Deletion, revoke_stops, create-authenticate, delete-Deletion,
}
use wildman_service.Auth
use wildman_service.Database.{Database, empty}

abbrev pub prefix_random : List ℕ
prefix_random = 1 ∷ 2 ∷ 3 ∷ 4 ∷ 5 ∷ 6 ∷ 7 ∷ 8 ∷ []

abbrev pub secret_random : List ℕ
secret_random = prefix_random ++ (prefix_random ++ (prefix_random ++ prefix_random))

-- A hash that is good enough for a test.
abbrev pub hash : Text → String
hash s = "hash"

abbrev pub operator : Auth.User
operator = record {
  id = "u";
  username = codes "admin";
  password_hash = [];
  status = Auth.active;
  created_at = 1;
  updated_at = 1;
}

abbrev db : Database ℕ
db = record empty { users = operator ∷ [] }

abbrev pub nas : Installation
nas = record {
  id = "c1";
  name = codes "NAS";
  token_prefix = codes "AQIDBAUGBwg";
  token_hash = "hash";
  status = active;
  created_by_user_id = "u";
  account_id = none;
  last_seen_at = none;
  revoked_at = none;
  created_at = 5;
}

abbrev pub before_text : ℕ → ℕ → Bool
before_text = ltb

created :
    (create hash before_text no_faults (codes " NAS ") "u" "c1" prefix_random secret_random 5 db).0
    ≡ ok (nas, token_of prefix_random secret_random)
unfolding create issue_token parse_token valid_token_segment create_client_installation encode
    decode trim_space has_prefix list_beq exists_where
created = refl

abbrev pub with_nas : Database ℕ
with_nas = record db { clients = nas ∷ [] }

issue_token-parse_example :
    parse_token (token_of prefix_random secret_random) ≡ ok (encode url prefix_random)
issue_token-parse_example =
    (issue_token-parse hash prefix_random secret_random (omega arith) (omega arith) refl refl).1

parse_token_sound_example :
    IsIssued (token_of prefix_random secret_random) (encode url prefix_random)
parse_token_sound_example =
    parse_token_sound (token_of prefix_random secret_random) (encode url prefix_random)
      issue_token-parse_example

create-authenticate_example :
    (authenticate hash before_text no_faults 9
      (token_of prefix_random secret_random)
      (create hash before_text no_faults
        (codes " NAS ")
        "u"
        "c1"
        prefix_random
        secret_random
        5
        db).1).0
    ≡ ok (record nas { last_seen_at = some 9 })
create-authenticate_example =
    create-authenticate hash before_text no_faults no_faults (codes " NAS ") "u" "c1" prefix_random
      secret_random 5 9 db nas (token_of prefix_random secret_random) (omega arith) (omega arith)
      refl refl refl refl created

revoked_nas :
    (revoke hash before_text no_faults "c1" "u" 7 with_nas).0
    ≡ ok (record nas { status = revoked; revoked_at = some 7 })
unfolding revoke revoke_client_installation first_where update_where count_where encode
revoked_nas = refl

abbrev pub admitted_nas : ℕ → Installation
admitted_nas now = record nas { last_seen_at = some now }

pub let_in :
    (now : ℕ)
    → (authenticate hash before_text no_faults now
        (token_of prefix_random secret_random)
        with_nas).0
      ≡ ok (admitted_nas now)
unfolding authenticate digest_token parse_token valid_token_segment encode decode has_prefix
    list_beq find_client_installation_by_token touch_client_installation first_where count_where
let_in now = refl

revoke_stops_example :
    (authenticate hash before_text no_faults 9
      (token_of prefix_random secret_random)
      (revoke hash before_text no_faults "c1" "u" 7 with_nas).1).0
    ≡ err installation_revoked
unfolding has_token first_where list_beq encode
revoke_stops_example =
    revoke_stops hash before_text no_faults no_faults "c1" "u" 7 9
      (token_of prefix_random secret_random) (encode url prefix_random) with_nas nas _ refl
      issue_token-parse_example refl refl revoked_nas

delete-Deletion_example :
    Deletion "c1"
      (codes "NAS")
      with_nas
      (delete hash before_text no_faults "c1" (codes "NAS") "u" 8 with_nas).0
      (delete hash before_text no_faults "c1" (codes "NAS") "u" 8 with_nas).1
unfolding trim_space
delete-Deletion_example =
    delete-Deletion hash before_text no_faults "c1" "u" (codes "NAS") 8 with_nas
