-- ===== src/Account/Service/Devices/Tests.antt =====
-- A television that is authorized for an account, and the theorem at it.
use wildman_service.Base.{
  ℕ, String, some, List, [], ◌∷◌, ◌++◌, ltb, if◌then◌else◌, int_eq, string_eq, nat_eq, ◌==◌,
  list_eq, Text, codes,
}
use wildman_service.Base64.{url, encode}
use wildman_service.Unicode.{ascii}
use wildman_service.Auth
use wildman_service.Account.Support.{Environment, DeviceStart, FiveBytes, device_marker}
use wildman_service.Client
use wildman_service.Client.Service as Service
use wildman_service.Database.{Database, empty}

abbrev random : List ℕ
random = 1 ∷ 2 ∷ 3 ∷ 4 ∷ 5 ∷ 6 ∷ 7 ∷ 8 ∷ []

abbrev secret : List ℕ
secret = random ++ (random ++ (random ++ random))

-- A hash that tells apart the texts of the test.
abbrev digest : Text → String
digest [] = "empty"
digest (c ∷ s) = if c == b'w' then "code or token" else "user code"

abbrev env : Environment
env = record {
  unicode = ascii;
  parse_address = some;
  month_of = λ _. "2024-01";
  digest = digest;
  id_key = λ password salt time memory threads length. password;
  dummy_password_hash = [];
  text_lt = ltb;
}

abbrev operator : Auth.User
operator = record {
  id = "u";
  username = codes "admin";
  password_hash = [];
  status = Auth.active;
  created_at = 1;
  updated_at = 1;
}

abbrev db : Database ℕ
db = record empty { users = operator ∷ [] }

abbrev bytes : FiveBytes
bytes = record { a = 255; b = 1; c = 2; d = 3; e = 4 }

abbrev started : DeviceStart
unfolding encode
started = record {
  device_code = device_marker ++ encode url random;
  user_code = codes "74AQEAYE";
  expires_in = 600;
  interval = 5;
}
