-- ===== src/Auth/Password.antt =====
-- Password hashes: hashPassword and validatePassword (internal/app/auth/service.go) and
-- verifyPassword (internal/app/auth/password.go). The function of golang.org/x/crypto/argon2 is the
-- argument `id_key`: password, salt, iterations, memory, parallelism and key length.
pub mod RoundTrip
use wildman_service.Base.{
  ℕ, ◌+◌, ◌-◌, ◌*◌, ◌^◌, Bool, not, ◌&&◌, ◌||◌, Option, none, some, List, [], ◌∷◌, ◌++◌, ltb, leb,
  if◌then◌else◌, Result, ◌>>◌, length, int_eq, ◌==◌, nat_eq, string_eq, list_beq, list_eq, Text,
  codes, byte_length, trim_left, is_space, ok, err,
}
use wildman_service.Base64.{Alphabet, std, encode, decode}

abbrev minimum_password_length : ℕ
minimum_password_length = 6

abbrev maximum_password_bytes : ℕ
maximum_password_bytes = 1024

pub data PasswordError : Type 0 where
  invalid_password invalid_format unsupported_version invalid_parameters : PasswordError
  parameters_outside_limits invalid_salt invalid_key : PasswordError

-- validatePassword
unfoldable pub validate_password : Text → Result PasswordError (Unit {0})
unfolding byte_length
validate_password value =
    if ltb (length value) minimum_password_length || ltb maximum_password_bytes (byte_length value)
    then err invalid_password
    else ok tt

abbrev argon2_version : ℕ
argon2_version = 19

abbrev pub memory : ℕ
memory = 64 * 1024

abbrev pub iterations : ℕ
iterations = 3

abbrev pub parallelism : ℕ
parallelism = 2

abbrev pub key_length : ℕ
key_length = 32

-- The format of hashPassword at its constants, up to the salt.
abbrev hash_header : Text
hash_header = codes "$argon2id$v=19$m=65536,t=3,p=2$"

-- strings.Split by one character.
split_first : ℕ → List Text → List Text
split_first c [] = (c ∷ []) ∷ []
split_first c (p ∷ ps) = (c ∷ p) ∷ ps

split : ℕ → Text → List Text
unfolding split_first
split sep [] = [] ∷ []
split sep (c ∷ s) = let rest = split sep s in if c == sep then [] ∷ rest else split_first c rest

abbrev is_digit : ℕ → Bool
is_digit c = leb b'0' c && leb c b'9'

-- The digits of a number, its value so far and what follows it.
scan_digits : ℕ → Text → ℕ × Text
scan_digits n [] = (n, [])
scan_digits n (c ∷ s) =
    let rest = scan_digits (n * 10 + (c - b'0')) s in if is_digit c then rest else (n, c ∷ s)

scan_start : ℕ → Text → Option (ℕ × Text)
unfolding scan_digits
scan_start bound [] = none
scan_start bound (c ∷ s) =
    let (n, rest) = scan_digits 0 (c ∷ s) in
    if is_digit c && ltb n bound then some (n, rest) else none

-- `%d` of fmt.Sscanf for an unsigned number below `bound`: spaces are skipped, and a digit must follow.
scan_number : ℕ → Text → Option (ℕ × Text)
unfolding scan_start trim_left is_space
scan_number bound s = scan_start bound (trim_left is_space s)

-- A literal part of a format of fmt.Sscanf.
scan_literal : Text → Text → Option Text
scan_literal [] s = some s
scan_literal (c ∷ f) [] = none
scan_literal (c ∷ f) (d ∷ s) = if c == d then scan_literal f s else none

infixl 10 ◌>>=◌
abbrev ◌>>=◌ : {A B : Type 0} → Option A → (A → Option B) → Option B
none >>= f = none
some a >>= f = f a

drop_plus : Text → Text
drop_plus [] = []
drop_plus (c ∷ s) = if c == b'+' then s else c ∷ s

-- fmt.Sscanf(s, "v=%d", &version). The version is signed: a plus sign is read, and a negative number,
-- which the model refuses, is not the version that is asked for. What follows a number is not read.
scan_version : Text → Option ℕ
unfolding scan_literal scan_start trim_left is_space drop_plus
scan_version s = do
  s₁ ← scan_literal (codes "v=") s
  (version, s₂) ← scan_start (2 ^ 63) (drop_plus (trim_left is_space s₁))
  some version

-- fmt.Sscanf(s, "m=%d,t=%d,p=%d", &memory, &iterations, &parallelism)
scan_parameters : Text → Option (ℕ × ℕ × ℕ)
unfolding scan_literal scan_number
scan_parameters s = do
  s₁ ← scan_literal (codes "m=") s
  (m, s₂) ← scan_number (2 ^ 32) s₁
  s₃ ← scan_literal (codes ",t=") s₂
  (t, s₄) ← scan_number (2 ^ 32) s₃
  s₅ ← scan_literal (codes ",p=") s₄
  (p, s₆) ← scan_number (2 ^ 8) s₅
  some (m, t, p)

-- Decoded bytes between 16 and 64.
decode_sized : Text → Option (List ℕ)
decode_sized s = do
  bytes ← decode std s
  if ltb (length bytes) 16 || ltb 64 (length bytes) then none else some bytes

-- The parameters that verifyPassword accepts.
parameters_allowed : ℕ × ℕ × ℕ → Bool
parameters_allowed (m, t, p) =
    not (m == 0 || ltb (256 * 1024) m || t == 0 || ltb 10 t || p == 0 || ltb 16 p)

module _ (id_key : Text → List ℕ → ℕ → ℕ → ℕ → ℕ → List ℕ) where
  -- hashPassword, from the random salt.
  pub hash_password : Text → List ℕ → Text
  hash_password password salt =
      hash_header
      ++ (encode std salt
          ++ (b'$' ∷ encode std (id_key password salt iterations memory parallelism key_length)))

  check_key : Text → ℕ × ℕ × ℕ → Option (List ℕ) → Option (List ℕ) → Result PasswordError Bool
  check_key password (m, t, p) none key = err invalid_salt
  check_key password (m, t, p) (some salt) none = err invalid_key
  check_key password (m, t, p) (some salt) (some expected_key) =
      ok (list_beq (id_key password salt t m p (length expected_key)) expected_key)

  check_parameters : Text → Text → Text → Option (ℕ × ℕ × ℕ) → Result PasswordError Bool
  unfolding check_key decode_sized parameters_allowed
  check_parameters password salt key none = err invalid_parameters
  check_parameters password salt key (some params) =
      if not (parameters_allowed params)
      then err parameters_outside_limits
      else check_key password params (decode_sized salt) (decode_sized key)

  check_version : Text → Text → Text → Text → Option ℕ → Result PasswordError Bool
  unfolding check_parameters
  check_version password parameters salt key none = err unsupported_version
  check_version password parameters salt key (some version) =
      if not (version == argon2_version)
      then err unsupported_version
      else check_parameters password salt key (scan_parameters parameters)

  check_parts : Text → List Text → Result PasswordError Bool
  unfolding check_version
  check_parts password (_ ∷ name ∷ version ∷ parameters ∷ salt ∷ key ∷ []) =
      if not (name == codes "argon2id")
      then err invalid_format
      else check_version password parameters salt key (scan_version version)
  check_parts password _ = err invalid_format

  -- verifyPassword. The comparison in constant time is a comparison.
  pub verify_password : Text → Text → Result PasswordError Bool
  unfolding check_parts split
  verify_password password encoded_hash = check_parts password (split b'$' encoded_hash)
