-- ===== src/Http/Tests.antt =====
-- A client with an account, its requests, and the theorems at them.
use wildman_service.Base.{
  ℕ, String, ◌≡◌, refl, ◌≢◌, ◌↔◌, ◌⊎◌, true, false, Option, some, List, [], ◌∷◌, ◌++◌, map, arith,
  eq_iff, ltb, if◌then◌else◌, no_faults, first_where, exists_where, int_eq, string_eq, nat_eq, ◌==◌,
  list_beq, list_eq, Text, codes, byte_length, all_codes, trim_left, trim, is_space, trim_space, ok,
  err,
}
use wildman_service.Client.Service.Tests as Client
use wildman_service.Account.Service.Tests as Account
use wildman_service.Account.Support.{Environment}
use wildman_service.Account.Service.{consume_quota}
use wildman_service.Account.Quota.{consume_resolution_quota, consume_for, consume_with, count_usage}
use wildman_service.Catalog.{queued}
use wildman_service.Resolution.Tests as Resolution
use wildman_service.Resolution.Service.{
  idempotency_key_required, idempotency_key_invalid, create_request, upsert_observation,
}
use wildman_service.Resolution.Store.{
  create_resolution_request, upsert_track_observation, request_insertable, answer_creation,
}
use wildman_service.Resolution.Tables.{is_request_of, is_observation_of}
use wildman_service.Unicode.{ascii}
use wildman_service.Limiter.{new_limiter}
use wildman_service.Database.{Database}
use wildman_service.Http.{Request, reply, Server, Handler, header_values, header_get}
use wildman_service.Http.Guards.{idempotency_key, request_idempotency_key, request_is_json}
use wildman_service.Http.Guards.Keys.{idempotency_key_iff}
use wildman_service.Http.Cors.{Url, origin_allowed}
use wildman_service.Http.Cors.Allowed.{IsPlainOrigin, IsListed, origin_allowed_iff}
use wildman_service.Http.Resolutions.{Context, post_resolution}
use wildman_service.Http.Resolutions.Retry.{post_resolution-again}

abbrev pub request_with : List (String × Text) → Request
request_with headers = record {
  method = "POST";
  host = codes "s";
  remote_addr = codes "1";
  headers = headers;
  cookies = [];
}

abbrev pub server_with : Database ℕ → Server ℕ
server_with db = record {
  db = db;
  client_limiter = new_limiter 0;
  login_limiter = new_limiter 0;
  account_limiter = new_limiter 0;
}

abbrev pub echo : String → Handler ℕ String
echo id s = (reply 200 id [], s)

abbrev post : Request
post =
    request_with (("Content-Type", codes "application/json") ∷ ("Idempotency-Key", codes "k") ∷ [])

abbrev environment : Environment
environment = record {
  unicode = ascii;
  parse_address = some;
  month_of = λ _. "2024-01";
  digest = Client.hash;
  id_key = λ password salt time memory threads length. password;
  dummy_password_hash = [];
  text_lt = ltb;
}

abbrev context : Context
context = record {
  fold = ascii.lower;
  parse_media_type = some;
  spell = λ t. if t == codes "k" then "k" else "";
  valid = λ _. true;
  observation_hash = λ _. "p";
  accounts = some environment;
  now = 5;
  observation_id = "o";
  request_id = "r";
  observing = no_faults;
  charging = no_faults;
  creating = no_faults;
}

abbrev retried : Context
retried = record context { now = 9; observation_id = "o2"; request_id = "r2" }

answered :
    (post_resolution context "c1" post (some Resolution.song) (server_with Account.db)).0
    ≡ reply 202 (record { request_id = "r"; status = queued }) []
unfolding post_resolution request_is_json request_idempotency_key idempotency_key header_get
    header_values upsert_observation upsert_track_observation consume_quota consume_resolution_quota
    consume_for consume_with count_usage create_request create_resolution_request request_insertable
    answer_creation is_request_of is_observation_of exists_where first_where list_beq byte_length
    trim_space all_codes trim trim_left is_space
answered = refl

post_resolution-again_example :
    let after =
      (post_resolution context "c1" post (some Resolution.song) (server_with Account.db)).1 in
    let again = post_resolution retried "c1" post (some Resolution.song) after in
    (again.1.db.usages ≡ after.db.usages)
post_resolution-again_example =
    (post_resolution-again context retried environment environment "c1" post post
      (some Resolution.song) (some Resolution.song) (server_with Account.db) 202
      (record { request_id = "r"; status = queued }) [] refl refl refl refl answered).0

idempotency_key_iff_example :
    let answer = (create_request no_faults "c1" "o" "k" "r" 9 Resolution.db).0 in
    (idempotency_key (codes "k" ∷ []) ≡ ok (codes "k"))
    ↔ ((answer ≢ err idempotency_key_required) × (answer ≢ err idempotency_key_invalid))
idempotency_key_iff_example =
    idempotency_key_iff no_faults "c1" "o" "k" "r" 9 Resolution.db
      (λ e. ground (arith, eq_iff "c1" "", e))

abbrev web : Text → Option Url
web s = some (record {
  scheme = codes "https";
  host = codes "s";
  has_user = false;
  path = [];
  raw_query = [];
  fragment = [];
})

origin_allowed_iff_example :
    (origin_allowed ascii.lower web (codes "https://s") (codes "S") (codes "https://t" ∷ []) ≡ true)
    ↔ ((v : Url) × (web (codes "https://s") ≡ some v)
        × IsPlainOrigin v
        × ((map ascii.lower v.host ≡ map ascii.lower (codes "S"))
            ⊎ IsListed ascii.lower (v.scheme ++ codes "://" ++ v.host) (codes "https://t" ∷ [])))
origin_allowed_iff_example =
    origin_allowed_iff ascii.lower web (codes "https://s") (codes "S") (codes "https://t" ∷ [])
