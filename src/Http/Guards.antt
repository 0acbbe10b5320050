-- ===== src/Http/Guards.antt =====
-- What a handler reads off a request before it serves it: requestBearerToken
-- (internal/httpserver/client_auth.go), requestCSRFValid (auth_security.go), sessionToken (auth.go),
-- requestIsJSON and requestIdempotencyKey (resolutions.go).
pub mod Keys
use wildman_service.Base.{
  ℕ, Bool, false, not, ◌&&◌, ◌||◌, Option, none, some, List, [], ◌∷◌, ltb, leb, if◌then◌else◌,
  Result, length, int_eq, string_eq, nat_eq, ◌==◌, list_eq, Text, codes, byte_length, any_code,
  all_codes, trim_space, ok, err,
}
use wildman_service.Resolution.Service.{max_idempotency_key_length}
use wildman_service.Http.{Request, header_values, header_get, cookie_value, equal_fold}

cut_after : ℕ → Option (Text × Text) → Option (Text × Text)
cut_after c none = none
cut_after c (some (a, b)) = some (c ∷ a, b)

-- strings.Cut at a code point
unfoldable pub cut : ℕ → Text → Option (Text × Text)
unfolding cut_after
cut separator [] = none
cut separator (c ∷ s) =
    let rest = cut separator s in if c == separator then some ([], s) else cut_after c rest

unfoldable pub is_blank : ℕ → Bool
is_blank c = c == b' ' || c == 9 || c == 13 || c == 10

bearer_of : (ℕ → ℕ) → Option (Text × Text) → Option Text
unfolding any_code is_blank
bearer_of fold none = none
bearer_of fold (some (scheme, token)) =
    if not (equal_fold fold scheme (codes "Bearer")) || token == [] || any_code is_blank token
    then none
    else some token

-- requestBearerToken, of the values of the header.
unfoldable pub bearer_token : (ℕ → ℕ) → List Text → Option Text
unfolding bearer_of cut
bearer_token fold [] = none
bearer_token fold (value ∷ []) = bearer_of fold (cut b' ' value)
bearer_token fold (_ ∷ _ ∷ _) = none

unfoldable pub request_bearer_token : (ℕ → ℕ) → Request → Option Text
unfolding bearer_token header_values
request_bearer_token fold r = bearer_token fold (header_values "Authorization" r.headers)

csrf_matches : Text → Option Text → Bool
csrf_matches header none = false
csrf_matches header (some cookie) = not (cookie == []) && not (header == []) && header == cookie

-- requestCSRFValid; the comparison in constant time is an equality.
unfoldable pub request_csrf_valid : Request → Bool
unfolding csrf_matches cookie_value header_get
request_csrf_valid r =
    csrf_matches (header_get "X-CSRF-Token" r.headers) (cookie_value "wildman_csrf" r.cookies)

or_empty : Option Text → Text
or_empty none = []
or_empty (some value) = value

-- sessionToken
unfoldable pub session_token : Request → Text
unfolding or_empty cookie_value
session_token r = or_empty (cookie_value "wildman_session" r.cookies)

json_type : (ℕ → ℕ) → Option Text → Bool
json_type fold none = false
json_type fold (some media_type) = equal_fold fold media_type (codes "application/json")

-- requestIsJSON. `parse_media_type` is mime.ParseMediaType without the parameters.
unfoldable pub request_is_json : (ℕ → ℕ) → (Text → Option Text) → Request → Bool
unfolding json_type header_get
request_is_json fold parse_media_type r =
    json_type fold (parse_media_type (header_get "Content-Type" r.headers))

pub data KeyError : Type 0 where
  key_required key_invalid : KeyError

-- The loop over the bytes, and the tests before it. The bytes of a code point above ASCII are above
-- 0x7e.
key_valid : Text → Bool
unfolding byte_length trim_space all_codes
key_valid value =
    not (ltb max_idempotency_key_length (byte_length value))
    && trim_space value == value
    && all_codes (λ c. leb 0x21 c && leb c 0x7e) value

-- requestIdempotencyKey, of the values of the header.
unfoldable pub idempotency_key : List Text → Result KeyError Text
unfolding key_valid
idempotency_key [] = err key_required
idempotency_key (value ∷ more) =
    if value == []
    then err key_required
    else if not (length more == 0)
    then err key_invalid
    else if key_valid value
    then ok value
    else err key_invalid

unfoldable pub request_idempotency_key : Request → Result KeyError Text
unfolding idempotency_key header_values
request_idempotency_key r = idempotency_key (header_values "Idempotency-Key" r.headers)
