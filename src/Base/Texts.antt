-- ===== src/Base/Texts.antt =====
-- Go strings whose characters the program inspects, as lists of code points, and what the source
-- uses of the packages `strings` and `unicode/utf8`.
use Prim.Native.Char.{code}
use Prim.Native.Nat.{ℕ, ◌+◌, ◌≤◌}
use Prim.Native.String.{String}
use mathlib.Core.Bool.{Bool, true, false, ◌&&◌, ◌||◌}
use mathlib.Core.List.{List, [], ◌∷◌, reverse}
use native.Mathlib.Omega.{arith}
use wildman_service.Base.Tests.{ltb, leb, if◌then◌else◌}
use wildman_service.Base.Lists.{length}
use wildman_service.Base.Equality.{nat_eq, ◌==◌}

abbrev pub Text : Type 0
Text = List ℕ

-- The text of a literal. `String` has its own `[]` and `∷`.
abbrev pub codes : String → Text
codes String.[] = []
codes (String.◌∷◌ c s) = code c ∷ codes s

-- len(s): the bytes of a code point in UTF-8, and of a text.
abbrev pub utf8_width : ℕ → ℕ
utf8_width c = if ltb c 0x80 then 1 else if ltb c 0x800 then 2 else if ltb c 0x10000 then 3 else 4

unfoldable pub byte_length : Text → ℕ
byte_length [] = 0
byte_length (c ∷ s) = utf8_width c + byte_length s

-- strings.HasPrefix
unfoldable pub has_prefix : Text → Text → Bool
has_prefix s [] = true
has_prefix [] (p ∷ ps) = false
has_prefix (c ∷ s) (p ∷ ps) = c == p && has_prefix s ps

-- strings.HasSuffix
unfoldable pub has_suffix : Text → Text → Bool
unfolding has_prefix
has_suffix s p = has_prefix (reverse s) (reverse p)

-- strings.Contains
unfoldable pub has_infix : Text → Text → Bool
unfolding has_prefix
has_infix [] p = has_prefix [] p
has_infix (c ∷ s) p = has_prefix (c ∷ s) p || has_infix s p

-- strings.ContainsRune, strings.ContainsAny over a set of code points
unfoldable pub any_code : (ℕ → Bool) → Text → Bool
any_code p [] = false
any_code p (c ∷ s) = p c || any_code p s

unfoldable pub all_codes : (ℕ → Bool) → Text → Bool
all_codes p [] = true
all_codes p (c ∷ s) = p c && all_codes p s

-- strings.TrimLeftFunc, strings.TrimFunc
unfoldable pub trim_left : (ℕ → Bool) → Text → Text
trim_left space [] = []
trim_left space (c ∷ s) = let rest = trim_left space s in if space c then rest else c ∷ s

unfoldable pub trim : (ℕ → Bool) → Text → Text
unfolding trim_left
trim space s = reverse (trim_left space (reverse (trim_left space s)))

-- unicode.IsSpace, the test of strings.TrimSpace.
unfoldable pub is_space : ℕ → Bool
is_space c =
    (leb 9 c && leb c 13)
    || c == 0x20
    || c == 0x85
    || c == 0xA0
    || c == 0x1680
    || (leb 0x2000 c && leb c 0x200a)
    || c == 0x2028
    || c == 0x2029
    || c == 0x202f
    || c == 0x205f
    || c == 0x3000

-- strings.TrimSpace
unfoldable pub trim_space : Text → Text
unfolding trim is_space
trim_space s = trim is_space s

-- strings.Compare(a, b) > 0
unfoldable pub text_after : Text → Text → Bool
text_after [] b = false
text_after (x ∷ a) [] = true
text_after (x ∷ a) (y ∷ b) = let rest = text_after a b in ltb y x || (x == y && rest)

pub trim_left-le : (space : ℕ → Bool) (s : Text) → length (trim_left space s) ≤ length s
unfolding trim_left
trim_left-le space [] = omega arith
trim_left-le space (c ∷ s) = ground (arith, trim_left-le space s)
