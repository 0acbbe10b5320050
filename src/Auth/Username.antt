-- ===== src/Auth/Username.antt =====
-- normalizeUsername (internal/app/auth/service.go).
use wildman_service.Base.{
  ℕ, Bool, ◌||◌, Option, none, some, ltb, if◌then◌else◌, length, int_eq, ◌==◌, nat_eq, string_eq,
  list_eq, Text, all_codes, trim_space,
}
use wildman_service.Unicode.{Unicode, to_lower}

abbrev minimum_username_length : ℕ
minimum_username_length = 3

abbrev maximum_username_length : ℕ
maximum_username_length = 32

-- The characters that the loop passes over.
username_char : Unicode → ℕ → Bool
username_char u c = u.is_letter c || u.is_digit c || (c == b'.' || c == b'_' || c == b'-')

-- `none` stands for ErrInvalidUsername.
unfoldable pub normalize_username : Unicode → Text → Option Text
unfolding username_char
normalize_username u value =
    let lowered = to_lower u (trim_space value) in
    if ltb (length lowered) minimum_username_length || ltb maximum_username_length (length lowered)
    then none
    else if all_codes (username_char u) lowered
    then some lowered
    else none
