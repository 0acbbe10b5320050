-- ===== src/Http/Cors.antt =====
-- The origins that a browser may call from: internal/httpserver/cors.go. `parse` is url.Parse, `none`
-- where it returns an error.
pub mod Allowed
use wildman_service.Base.{
  ℕ, ◌/◌, Bool, true, false, not, ◌&&◌, ◌||◌, Option, none, some, List, [], ◌∷◌, ◌++◌,
  if◌then◌else◌, call, int_eq, string_eq, nat_eq, ◌==◌, list_eq, Text, codes,
}
use wildman_service.Http.{
  Request, Response, refuse, reply, Header, allow_origin, Handler, header_get, equal_fold,
  write_api_error, write_json,
}

-- What the code looks at of a url.URL.
pub record Url : Type 0 where
  pub scheme : Text
  pub host : Text
  pub has_user : Bool
  pub path : Text
  pub raw_query : Text
  pub fragment : Text

unfoldable pub any_allowed : (ℕ → ℕ) → Text → List Text → Bool
any_allowed fold origin [] = false
any_allowed fold origin (allowed ∷ more) =
    equal_fold fold origin allowed || any_allowed fold origin more

-- The tests of originAllowed on the parsed origin.
unfoldable pub is_plain_origin : Url → Bool
is_plain_origin v =
    (v.scheme == codes "http" || v.scheme == codes "https")
    && not (v.host == [])
    && not v.has_user
    && (v.path == [] || v.path == codes "/")
    && v.raw_query == []
    && v.fragment == []

unfoldable pub url_allowed : (ℕ → ℕ) → Text → List Text → Option Url → Bool
unfolding is_plain_origin any_allowed
url_allowed fold request_host allowed none = false
url_allowed fold request_host allowed (some v) =
    if not (is_plain_origin v)
    then false
    else if equal_fold fold v.host request_host
    then true
    else any_allowed fold (v.scheme ++ codes "://" ++ v.host) allowed

-- originAllowed
unfoldable pub origin_allowed : (ℕ → ℕ) → (Text → Option Url) → Text → Text → List Text → Bool
unfolding url_allowed
origin_allowed fold parse origin request_host allowed =
    url_allowed fold request_host allowed (parse origin)

pub with_header : {A : Type 0} → Header → Response A → Response A
with_header h (reply status value headers) = reply status value (h ∷ headers)
with_header h (refuse status code headers) = refuse status code (h ∷ headers)

allowing : {Num A : Type 0} → Text → Handler Num A → Handler Num A
unfolding with_header
allowing origin next s =
    let (response, s') = next s in (with_header (allow_origin origin) response, s')

-- The middleware cors around a handler; `no_content` is the data of a preflight, null.
unfoldable pub cors :
    {Num A : Type 0}
    → (ℕ → ℕ)
    → (Text → Option Url)
    → List Text
    → A
    → Request
    → Handler Num A
    → Handler Num A
unfolding origin_allowed header_get allowing
cors fold parse allowed no_content r next =
    let origin = header_get "Origin" r.headers in
    if origin == []
    then next
    else if not (origin_allowed fold parse origin r.host allowed)
    then write_api_error 403 "ORIGIN_NOT_ALLOWED"
    else allowing origin (if r.method == "OPTIONS" then write_json 200 no_content else next)
