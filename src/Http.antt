-- ===== src/Http.antt =====
-- The HTTP server: internal/httpserver. What net/http and chi make of a request is the record
-- `Request`; a header's name is in its canonical spelling. A handler also has the JSON value that
-- decodeJSON made of the body, `none` where it returned an error. A response is the status with the
-- data, or the status with the code of an error; the messages and the id of the request are left out.
pub mod Guards
pub mod Cors
pub mod Middleware
pub mod Resolutions
pub mod Operators
pub mod Sessions
pub mod Accounts
pub mod Tests
use wildman_service.Base.{
  ℕ, String, Bool, Option, none, some, List, [], ◌∷◌, map, if◌then◌else◌, Result, Exec, call,
  int_eq, string_eq, nat_eq, ◌==◌, list_eq, Text,
}
use wildman_service.Limiter.{Limiter}
use wildman_service.Database.{Database}

pub record Request : Type 0 where
  pub method : String
  pub host : Text
  pub remote_addr : Text
  pub headers : List (String × Text)
  pub cookies : List (String × Text)

-- Headers that a handler sets beside the content type.
pub data Header : Type 0 where
  retry_after : ℕ → Header
  www_authenticate : String → Header
  -- the five headers of cors, which differ in the origin alone
  allow_origin : Text → Header
  -- the name, the value and the end; a cookie that ends at 0 is cleared
  set_cookie : String → Text → ℕ → Header

-- apiEnvelope: `data` or `error`.
pub data Response (A : Type 0) : Type 0 where
  reply : ℕ → A → List Header → Response A
  refuse : ℕ → String → List Header → Response A

-- The state that requests share: the database and the limiters.
pub record Server (Num : Type 0) : Type 0 where
  pub db : Database Num
  pub client_limiter : Limiter
  pub login_limiter : Limiter
  pub account_limiter : Limiter

abbrev pub Handler : Type 0 → Type 0 → Type 0
Handler Num A = Server Num → Response A × Server Num

-- Header.Values
unfoldable pub header_values : String → List (String × Text) → List Text
header_values name [] = []
header_values name ((key, value) ∷ more) =
    let rest = header_values name more in if key == name then value ∷ rest else rest

-- Header.Get
unfoldable pub header_get : String → List (String × Text) → Text
header_get name [] = []
header_get name ((key, value) ∷ more) =
    let rest = header_get name more in if key == name then value else rest

-- Request.Cookie
unfoldable pub cookie_value : String → List (String × Text) → Option Text
cookie_value name [] = none
cookie_value name ((key, value) ∷ more) =
    let rest = cookie_value name more in if key == name then some value else rest

-- strings.EqualFold: `fold` takes a code point to one that stands for all that fold to it.
abbrev pub equal_fold : (ℕ → ℕ) → Text → Text → Bool
equal_fold fold a b = map fold a == map fold b

module _ {Num A : Type 0} where
  -- writeAPIError
  abbrev pub write_api_error : ℕ → String → Handler Num A
  write_api_error status code s = (refuse status code [], s)

  -- writeInternalAPIError
  abbrev pub write_internal_api_error : Handler Num A
  write_internal_api_error s = (refuse 500 "INTERNAL_ERROR" [], s)

  -- writeJSON
  abbrev pub write_json : ℕ → A → Handler Num A
  write_json status value s = (reply status value [], s)

-- A call of a service, whose result the rest of the handler looks at.
abbrev pub on_database :
    {Num E A B : Type 0} → Exec E (Database Num) A → (Result E A → Handler Num B) → Handler Num B
on_database op k s = let (r, db) = op s.db in k r (record s { db = db })
