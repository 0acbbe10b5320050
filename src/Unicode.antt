-- ===== src/Unicode.antt =====
-- What the source asks of the tables of the package `unicode`, as a parameter.
use wildman_service.Base.{
  ℕ, ◌+◌, ◌-◌, Bool, ◌&&◌, ◌||◌, map, leb, if◌then◌else◌, int_eq, nat_eq, string_eq, list_eq, Text,
}

pub record Unicode : Type 0 where
  -- unicode.ToLower, unicode.ToUpper, which strings.ToLower and strings.ToUpper map over a text
  pub lower : ℕ → ℕ
  pub upper : ℕ → ℕ
  -- unicode.IsLetter, unicode.IsNumber, unicode.IsDigit
  pub is_letter : ℕ → Bool
  pub is_number : ℕ → Bool
  pub is_digit : ℕ → Bool

-- strings.ToLower
abbrev pub to_lower : Unicode → Text → Text
to_lower u s = map u.lower s

-- strings.ToUpper
abbrev pub to_upper : Unicode → Text → Text
to_upper u s = map u.upper s

-- The tables cut down to ASCII, for tests.
abbrev pub ascii : Unicode
ascii = record {
  lower = λ c. if leb b'A' c && leb c b'Z' then c + 32 else c;
  upper = λ c. if leb b'a' c && leb c b'z' then c - 32 else c;
  is_letter = λ c. (leb b'a' c && leb c b'z') || (leb b'A' c && leb c b'Z');
  is_number = λ c. leb b'0' c && leb c b'9';
  is_digit = λ c. leb b'0' c && leb c b'9';
}
