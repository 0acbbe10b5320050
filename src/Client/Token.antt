-- ===== src/Client/Token.antt =====
-- Client tokens: internal/domain/client/token.go. Random bytes are arguments.
pub mod Laws
use wildman_service.Base.{
  ℕ, zero, suc, ◌+◌, String, Bool, false, not, ◌&&◌, ◌||◌, Option, none, some, List, [], ◌∷◌, ◌++◌,
  if◌then◌else◌, Result, length, take, drop, int_eq, ◌==◌, nat_eq, string_eq, list_beq, list_eq,
  Text, codes, has_prefix, ok, err,
}
use wildman_service.Base64.{url, encode, encoded_len, decode}

abbrev token_marker : Text
token_marker = codes "wm_live_"

abbrev token_prefix_bytes : ℕ
token_prefix_bytes = 8

abbrev token_secret_bytes : ℕ
token_secret_bytes = 32

pub data TokenError : Type 0 where
  invalid_token : TokenError

pub record IssuedToken : Type 0 where
  pub value : Text
  pub prefix : Text
  pub hash : String

-- value[i] == c. Past the end the source would panic; the length is tested before.
byte_is : ℕ → Text → ℕ → Bool
byte_is i [] c = false
byte_is zero (b ∷ s) c = b == c
byte_is (suc i) (b ∷ s) c = byte_is i s c

-- Whether the decoded bytes are as many as expected and encode to the same text.
is_canonical : Text → ℕ → Option (List ℕ) → Bool
is_canonical value expected_bytes none = false
is_canonical value expected_bytes (some decoded) =
    length decoded == expected_bytes && encode url decoded == value

-- validTokenSegment
unfoldable pub valid_token_segment : Text → ℕ → Bool
unfolding is_canonical
valid_token_segment value expected_bytes = is_canonical value expected_bytes (decode url value)

abbrev prefix_start : ℕ
prefix_start = 8

-- EncodedLen of the two segments: `encoded_len 8` and `encoded_len 32`.
abbrev prefix_length : ℕ
prefix_length = 11

abbrev secret_length : ℕ
secret_length = 43

abbrev prefix_end : ℕ
prefix_end = prefix_start + prefix_length

abbrev expected_length : ℕ
expected_length = prefix_start + prefix_length + 1 + secret_length

-- ParseToken. The text is the token's bytes.
unfoldable pub parse_token : Text → Result TokenError Text
unfolding byte_is
parse_token value =
    if not (length value == expected_length) || not (has_prefix value token_marker)
    then err invalid_token
    else if not (byte_is prefix_end value b'_')
    then err invalid_token
    else let prefix = take prefix_length (drop prefix_start value) in
      let secret = drop (prefix_end + 1) value in
      if not (valid_token_segment prefix token_prefix_bytes)
        || not (valid_token_segment secret token_secret_bytes)
      then err invalid_token
      else ok prefix

-- SHA-256 and the encoding of its sum are the argument `sha256_base64`.
module _ (sha256_base64 : Text → String) where
  -- DigestToken
  unfoldable pub digest_token : Text → Result TokenError String
  unfolding parse_token
  digest_token value = elim (parse_token value) [ err e ↦ err e | ok _ ↦ ok (sha256_base64 value) ]

  -- IssueToken, from the bytes that `crypto/rand` gives for the two segments.
  unfoldable pub issue_token : List ℕ → List ℕ → Result TokenError IssuedToken
  unfolding digest_token
  issue_token prefix_random secret_random =
      let prefix = encode url prefix_random in
      let secret = encode url secret_random in
      let value = token_marker ++ (prefix ++ (b'_' ∷ secret)) in
      elim (digest_token value) [
        | err e ↦ err e
        | ok hash ↦ ok (record { value = value; prefix = prefix; hash = hash })
      ]
