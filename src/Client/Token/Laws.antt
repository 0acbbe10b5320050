-- ===== src/Client/Token/Laws.antt =====
-- What ParseToken accepts, and that it accepts what IssueToken gives out.
use wildman_service.Base.{
  ℕ, zero, suc, String, ◌≡◌, refl, sym, ap, subst, ◌∙◌, inl, inr, true, some, List, [], ◌∷◌, ◌++◌,
  arith, Option-cases, length, length-append, take, drop, All, int_eq, nat_eq, string_eq,
  list_beq_iff, list_eq, Text, has_prefix, ok,
}
use wildman_service.Base64.{url, encode, encoded_len, decode}
use wildman_service.Base64.Laws.{IsByte, decode-encode, length-encode}
use wildman_service.Client.Token.{
  token_marker, byte_is, is_canonical, valid_token_segment, parse_token, digest_token, issue_token,
}

take-append : (p s : Text) → take (length p) (p ++ s) ≡ p
take-append [] s = refl
take-append (c ∷ p) s = ap (λ t. c ∷ t) (take-append p s)

byte_is-append : (p s : Text) (c : ℕ) → byte_is (length p) (p ++ (c ∷ s)) c ≡ true
unfolding byte_is
byte_is-append [] s c = ground arith
byte_is-append (b ∷ p) s c = byte_is-append p s c

valid-encode :
    (n : ℕ) (bs : List ℕ)
    → All IsByte bs
    → length bs ≡ n
    → valid_token_segment (encode url bs) n ≡ true
unfolding valid_token_segment
valid-encode n bs h e =
    rw (decode-encode url bs h, is_canonical)
      (ground (arith, list_beq_iff (encode url bs) (encode url bs)))

drop-append_suc : (p s : Text) (c : ℕ) → drop (suc (length p)) (p ++ (c ∷ s)) ≡ s
drop-append_suc [] s c = refl
drop-append_suc (b ∷ p) s c = drop-append_suc p s c

-- A text with the form of a token.
abbrev pub token_of : List ℕ → List ℕ → Text
token_of p s = token_marker ++ (encode url p ++ (b'_' ∷ encode url s))

length-encode_8 : (p : List ℕ) → length p ≡ 8 → length (encode url p) ≡ 11
unfolding encoded_len
length-encode_8 p h = length-encode url p ∙ rw h

length-encode_32 : (p : List ℕ) → length p ≡ 32 → length (encode url p) ≡ 43
unfolding encoded_len
length-encode_32 p h = length-encode url p ∙ rw h

parse-token_of :
    (p s : List ℕ)
    → All IsByte p
    → All IsByte s
    → length p ≡ 8
    → length s ≡ 32
    → parse_token (token_of p s) ≡ ok (encode url p)
unfolding parse_token
parse-token_of p s hp hs lp ls =
    let e₁ = length-encode_8 p lp in
    let e₂ = length-encode_32 s ls in
    let rest : Text = encode url p ++ (b'_' ∷ encode url s) in
    let len : length rest ≡ 55 = length-append (encode url p) (b'_' ∷ encode url s) ∙ omega arith in
    let at : byte_is 11 rest b'_' ≡ true =
      subst (λ n. byte_is n rest b'_' ≡ true) e₁
        (byte_is-append (encode url p) (encode url s) b'_') in
    let front : take 11 rest ≡ encode url p =
      subst (λ n. take n rest ≡ encode url p) e₁
        (take-append (encode url p) (b'_' ∷ encode url s)) in
    let back : drop 12 rest ≡ encode url s =
      subst (λ n. drop (suc n) rest ≡ encode url s) e₁
        (drop-append_suc (encode url p) (encode url s) b'_') in
    let good_prefix = valid-encode 8 p hp lp in
    let good_secret = valid-encode 32 s hs ls in
    unfold has_prefix in ground (arith, len, at, front, back, good_prefix, good_secret)

-- A token that IssueToken gives out, from 8 and 32 random bytes, carries the encoded prefix and the
-- hash of its whole text, and ParseToken reads that same prefix from it.
pub issue_token-parse :
    (sha256_base64 : Text → String) (p s : List ℕ)
    → All IsByte p
    → All IsByte s
    → length p ≡ 8
    → length s ≡ 32
    → (issue_token sha256_base64 p s
        ≡ ok (record {
          value = token_of p s;
          prefix = encode url p;
          hash = sha256_base64 (token_of p s);
        }))
      × (parse_token (token_of p s) ≡ ok (encode url p))
unfolding issue_token
issue_token-parse sha256_base64 p s hp hs lp ls =
    let parsed = parse-token_of p s hp hs lp ls in (rw (issue_token, digest_token, parsed), parsed)

has_prefix-split : (s p : Text) → has_prefix s p ≡ true → s ≡ p ++ drop (length p) s
unfolding has_prefix
has_prefix-split s [] h = refl
has_prefix-split [] (b ∷ p) h = cc
has_prefix-split (c ∷ s) (b ∷ p) h = ground (arith, has_prefix-split s p)

byte_is-split :
    (i : ℕ) (s : Text) (c : ℕ) → byte_is i s c ≡ true → s ≡ take i s ++ (c ∷ drop (suc i) s)
unfolding byte_is
byte_is-split i [] c h = cc
byte_is-split zero (b ∷ s) c h = ground arith
byte_is-split (suc i) (b ∷ s) c h = ap (λ t. b ∷ t) (byte_is-split i s c h)

-- A valid segment is the encoding of as many bytes as expected.
valid_token_segment-encode :
    (t : Text) (n : ℕ)
    → valid_token_segment t n ≡ true
    → (bs : List ℕ) × (length bs ≡ n) × (encode url bs ≡ t)
unfolding valid_token_segment
valid_token_segment-encode t n h = elim (Option-cases (decode url t)) [
  | inl e ↦ cc (rw (e, is_canonical) at h)
  | inr (bs, e) ↦
      let h' : is_canonical t n (some bs) ≡ true = subst (λ o. is_canonical t n o ≡ true) e h in
      (
        bs,
        unfold is_canonical in ground arith,
        unfold is_canonical in ground (arith, list_beq_iff (encode url bs) t),
      )
]

abbrev pub IsIssued : Text → Text → Type 0
IsIssued value prefix =
    (p : List ℕ) × (s : List ℕ) × (length p ≡ 8)
    × (length s ≡ 32)
    × (value ≡ token_of p s)
    × (prefix ≡ encode url p)

parse-marked :
    (w prefix : Text)
    → parse_token (token_marker ++ w) ≡ ok prefix
    → IsIssued (token_marker ++ w) prefix
unfolding parse_token has_prefix
parse-marked w prefix h =
    let at : byte_is 11 w b'_' ≡ true = ground arith in
    let (p, lp, ep) = valid_token_segment-encode (take 11 w) 8 (ground arith) in
    let (s, ls, es) = valid_token_segment-encode (drop 12 w) 32 (ground arith) in
    let body : w ≡ encode url p ++ (b'_' ∷ encode url s) =
      byte_is-split 11 w b'_' at ∙ rw (ep, es) in
    (p, s, lp, ls, ap (λ t. token_marker ++ t) body, ground arith)

-- What ParseToken accepts is the marker, the encoding of 8 bytes, `_` and the encoding of 32 bytes,
-- and the prefix that it returns is the first encoding.
pub parse_token_sound :
    (value prefix : Text) → parse_token value ≡ ok prefix → IsIssued value prefix
unfolding parse_token
parse_token_sound value prefix h =
    let marked : value ≡ token_marker ++ drop 8 value =
      has_prefix-split value token_marker (ground arith) in
    subst (λ v. IsIssued v prefix) (sym marked)
      (parse-marked (drop 8 value) prefix (subst (λ v. parse_token v ≡ ok prefix) marked h))
