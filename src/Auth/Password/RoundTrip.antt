-- ===== src/Auth/Password/RoundTrip.antt =====
-- A hash that hashPassword writes is read back by verifyPassword.
use wildman_service.Base.{
  ℕ, ◌≤◌, ◌≡◌, refl, false, some, List, [], ◌∷◌, ◌++◌, arith, length, All, int_eq, ◌==◌, nat_eq,
  string_eq, list_beq, list_eq, Text, codes, ok,
}
use wildman_service.Base64.{std, digit, encode}
use wildman_service.Base64.Laws.{IsByte, decode-encode}
use wildman_service.Auth.Password.{
  split, scan_version, scan_parameters, decode_sized, hash_password, verify_password, iterations,
  memory, parallelism, key_length,
}

-- No character of the text is the separator.
abbrev Without : ℕ → Text → Type 0
Without sep s = All (λ c. (c == sep) ≡ false) s

split-Without : (sep : ℕ) (s : Text) → Without sep s → split sep s ≡ s ∷ []
unfolding split
split-Without sep [] h = refl
split-Without sep (c ∷ s) h = rw (h.0, split-Without sep s h.1)

split-append : (sep : ℕ) (s t : Text) → Without sep s → split sep (s ++ (sep ∷ t)) ≡ s ∷ split sep t
unfolding split
split-append sep [] t h = ground arith
split-append sep (c ∷ s) t h = rw (h.0, split-append sep s t h.1)

digit_no_dollar : (n : ℕ) → (digit std n == b'$') ≡ false
unfolding digit
digit_no_dollar n = ground arith

encode-Without : (bs : List ℕ) → Without b'$' (encode std bs)
unfolding encode
encode-Without [] = tt
encode-Without (a ∷ []) = search digit_no_dollar
encode-Without (a ∷ b ∷ []) = search digit_no_dollar
encode-Without (a ∷ b ∷ c ∷ bs) = search (digit_no_dollar, encode-Without bs)

decode_sized-encode :
    (bs : List ℕ)
    → All IsByte bs
    → 16 ≤ length bs
    → length bs ≤ 64
    → decode_sized (encode std bs) ≡ some bs
unfolding decode_sized
decode_sized-encode bs h lo hi = rw (decode-encode std bs h) (ground arith)

module _ (id_key : Text → List ℕ → ℕ → ℕ → ℕ → ℕ → List ℕ) (password : Text) (salt : List ℕ) where
  abbrev key_of : Text → List ℕ
  key_of p = id_key p salt iterations memory parallelism key_length

  parts :
      split b'$' (hash_password id_key password salt)
      ≡ []
        ∷ codes "argon2id"
        ∷ codes "v=19"
        ∷ codes "m=65536,t=3,p=2"
        ∷ encode std salt
        ∷ encode std (key_of password)
        ∷ []
  unfolding hash_password split
  parts = rw (
    split-append b'$' (encode std salt) (encode std (key_of password)) (encode-Without salt),
    split-Without b'$' (encode std (key_of password)) (encode-Without (key_of password)),
  )

  -- With a salt of 16 bytes and a key function that returns as many bytes as it is asked for, the
  -- hash of a password is accepted for exactly those attempts whose key is the same.
  pub verify-hash :
      (attempt : Text)
      → All IsByte salt
      → length salt ≡ 16
      → All IsByte (key_of password)
      → length (key_of password) ≡ key_length
      → verify_password id_key attempt (hash_password id_key password salt)
        ≡ ok (list_beq (key_of attempt) (key_of password))
  unfolding verify_password scan_version scan_parameters
  verify-hash attempt hs ls hk lk = rw parts (
      rw
        (
          decode_sized-encode salt hs (omega arith) (omega arith),
          decode_sized-encode (key_of password) hk (omega arith) (omega arith),
        )
        (rw lk (unfold list_beq in refl)))
