-- ===== src/Base64.antt =====
-- The unpadded encodings of `encoding/base64` that the source uses: RawURLEncoding for tokens, ids
-- and digests, RawStdEncoding for password hashes. Bytes are numbers below 256.
pub mod Laws
use wildman_service.Base.{
  ℕ, ◌+◌, ◌-◌, ◌*◌, ◌/◌, ◌%◌, not, ◌&&◌, ◌||◌, Option, none, some, List, [], ◌∷◌, ltb, leb,
  if◌then◌else◌, Text, ◌==◌, nat_eq, string_eq, list_eq,
}

pub data Alphabet : Type 0 where
  url std : Alphabet

-- The last two digits of an alphabet.
char_62 : Alphabet → ℕ
char_62 url = b'-'
char_62 std = b'+'

char_63 : Alphabet → ℕ
char_63 url = b'_'
char_63 std = b'/'

unfoldable pub digit : Alphabet → ℕ → ℕ
unfolding char_62 char_63
digit al n =
    if ltb n 26
    then 65 + n
    else if ltb n 52
    then 71 + n
    else if ltb n 62
    then n - 4
    else if n == 62
    then char_62 al
    else char_63 al

value : Alphabet → ℕ → Option ℕ
unfolding char_62 char_63
value al c =
    if leb 65 c && leb c 90
    then some (c - 65)
    else if leb 97 c && leb c 122
    then some (c - 71)
    else if leb 48 c && leb c 57
    then some (c + 4)
    else if c == char_62 al
    then some 62
    else if c == char_63 al
    then some 63
    else none

-- EncodeToString
unfoldable pub encode : Alphabet → List ℕ → Text
unfolding digit
encode al [] = []
encode al (a ∷ []) = digit al (a / 4) ∷ digit al (a % 4 * 16) ∷ []
encode al (a ∷ b ∷ []) =
    digit al (a / 4) ∷ digit al (a % 4 * 16 + b / 16) ∷ digit al (b % 16 * 4) ∷ []
encode al (a ∷ b ∷ c ∷ bs) =
    digit al (a / 4)
    ∷ digit al (a % 4 * 16 + b / 16)
    ∷ digit al (b % 16 * 4 + c / 64)
    ∷ digit al (c % 64)
    ∷ encode al bs

-- EncodedLen
unfoldable pub encoded_len : ℕ → ℕ
encoded_len n = n / 3 * 4 + (n % 3 * 8 + 5) / 6

infixl 10 ◌>>=◌
abbrev ◌>>=◌ : {A B : Type 0} → Option A → (A → Option B) → Option B
none >>= f = none
some a >>= f = f a

-- Four digits stand for three bytes; the spare bits of a last group are not looked at.
decode_groups : Alphabet → Text → Option (List ℕ)
unfolding value
decode_groups al [] = some []
decode_groups al (w ∷ []) = none
decode_groups al (w ∷ x ∷ []) = do i ← value al w; j ← value al x; some ((i * 4 + j / 16) ∷ [])
decode_groups al (w ∷ x ∷ y ∷ []) = do
  i ← value al w
  j ← value al x
  k ← value al y
  some ((i * 4 + j / 16) ∷ (j % 16 * 16 + k / 4) ∷ [])
decode_groups al (w ∷ x ∷ y ∷ z ∷ s) =
    let rest = decode_groups al s in
    do
      i ← value al w
      j ← value al x
      k ← value al y
      l ← value al z
      bs ← rest
      some ((i * 4 + j / 16) ∷ (j % 16 * 16 + k / 4) ∷ (k % 4 * 64 + l) ∷ bs)

-- The decoder skips line ends.
skip_line_ends : Text → Text
skip_line_ends [] = []
skip_line_ends (c ∷ s) =
    let rest = skip_line_ends s in if c == 10 || c == 13 then rest else c ∷ rest

-- DecodeString; `none` stands for the error.
unfoldable pub decode : Alphabet → Text → Option (List ℕ)
unfolding decode_groups skip_line_ends
decode al s = decode_groups al (skip_line_ends s)
