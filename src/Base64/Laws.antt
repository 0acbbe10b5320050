-- ===== src/Base64/Laws.antt =====
-- Decoding undoes encoding, and the length of an encoding.
use wildman_service.Base.{
  ℕ, ◌+◌, ◌*◌, ◌/◌, ◌%◌, ◌<◌, ◌≡◌, refl, ap, false, ◌||◌, some, List, [], ◌∷◌, arith, length, All,
  ◌==◌, nat_eq, string_eq, list_eq,
}
use wildman_service.Base64.{
  Alphabet, url, std, digit, value, encode, encoded_len, decode, decode_groups, skip_line_ends,
}

abbrev pub IsByte : ℕ → Type 0
IsByte b = b < 256

value-digit : (al : Alphabet) (n : ℕ) → n < 64 → value al (digit al n) ≡ some n
unfolding value digit
value-digit url n h = ground arith
value-digit std n h = ground arith

digit_no_line_end : (al : Alphabet) (n : ℕ) → (digit al n == 10 || digit al n == 13) ≡ false
unfolding digit
digit_no_line_end url n = ground arith
digit_no_line_end std n = ground arith

skip-encode : (al : Alphabet) (bs : List ℕ) → skip_line_ends (encode al bs) ≡ encode al bs
unfolding skip_line_ends encode
skip-encode al [] = refl
skip-encode al (a ∷ []) = simp digit_no_line_end
skip-encode al (a ∷ b ∷ []) = simp digit_no_line_end
skip-encode al (a ∷ b ∷ c ∷ bs) = simp (digit_no_line_end, skip-encode al bs)

groups-encode :
    (al : Alphabet) (bs : List ℕ) → All IsByte bs → decode_groups al (encode al bs) ≡ some bs
unfolding decode_groups encode
groups-encode al [] h = refl
groups-encode al (a ∷ []) h =
    rw (value-digit al (a / 4) (omega arith), value-digit al (a % 4 * 16) (omega arith))
      (ap (λ (x : ℕ). some (x ∷ [])) (omega arith))
groups-encode al (a ∷ b ∷ []) h =
    rw
      (
        value-digit al (a / 4) (omega arith),
        value-digit al (a % 4 * 16 + b / 16) (omega arith),
        value-digit al (b % 16 * 4) (omega arith),
      )
      (ground arith)
groups-encode al (a ∷ b ∷ c ∷ bs) h =
    rw
      (
        value-digit al (a / 4) (omega arith),
        value-digit al (a % 4 * 16 + b / 16) (omega arith),
        value-digit al (b % 16 * 4 + c / 64) (omega arith),
        value-digit al (c % 64) (omega arith),
        groups-encode al bs h.1.1.1,
      )
      (ground arith)

-- Decoding an encoding gives the bytes back, in both alphabets.
pub decode-encode :
    (al : Alphabet) (bs : List ℕ) → All IsByte bs → decode al (encode al bs) ≡ some bs
unfolding decode
decode-encode al bs h = rw (skip-encode al bs) (groups-encode al bs h)

pub length-encode : (al : Alphabet) (bs : List ℕ) → length (encode al bs) ≡ encoded_len (length bs)
unfolding encode encoded_len
length-encode al [] = refl
length-encode al (a ∷ []) = refl
length-encode al (a ∷ b ∷ []) = refl
length-encode al (a ∷ b ∷ c ∷ bs) = omega (arith, length-encode al bs)
