-- ===== src/Client/Service/Authentication.antt =====
-- Who is let in with a client token.
use wildman_service.Base.{
  ℕ, String, ◌≡◌, refl, inl, inr, Bool, true, Option, none, some, arith, eq_iff, if◌then◌else◌,
  Result-cases, Faults, first_where, first_where-true, int_eq, nat_eq, string_eq, list_eq, Text, ok,
  err,
}
use wildman_service.Client.{Installation, is_active}
use wildman_service.Client.Token.{parse_token, digest_token}
use wildman_service.Client.Token.Laws.{IsIssued, parse_token_sound}
use wildman_service.Client.Store.{find_client_installation_by_token, has_token}
use wildman_service.Client.Service.{store_failed, admit, authenticate, touch_due}
use wildman_service.Database.{Database}

-- The installation that is let in is the row, with the time of its last use brought up to date.
abbrev pub IsAdmitted : ℕ → Installation → Installation → Type 0
IsAdmitted now row i =
    (is_active row ≡ true)
    × (i ≡ (if touch_due now row.last_seen_at then record row { last_seen_at = some now } else row))

digest_parsed :
    (sha256_base64 : Text → String) (token prefix : Text)
    → parse_token token ≡ ok prefix
    → digest_token sha256_base64 token ≡ ok (sha256_base64 token)
unfolding digest_token
digest_parsed sha256_base64 token prefix good = rw (good, digest_token)

module _ {Num : Type 0} (sha256_base64 : Text → String) (text_lt : ℕ → ℕ → Bool)
    (faults : Faults) where
  admit_sound :
      (now : ℕ) (row : Option Installation) (db : Database Num) (i : Installation)
      → (admit sha256_base64 text_lt faults now row db).0 ≡ ok i
      → (r : Installation) × (row ≡ some r) × IsAdmitted now r i
  unfolding admit
  admit_sound now none db i h = cc
  admit_sound now (some r) db i h = (r, refl, ground arith)

  unfoldable pub looked_up : Text → Text → Database Num → Option Installation
  looked_up prefix token db = first_where (has_token prefix (sha256_base64 token)) db.clients

  pub authenticate_parsed :
      (now : ℕ) (token prefix : Text) (db : Database Num)
      → parse_token token ≡ ok prefix
      → authenticate sha256_base64 text_lt faults now token db ≡ (
          if faults 0
          then (err store_failed, db)
          else admit sha256_base64 text_lt faults now (looked_up prefix token db) db)
  unfolding authenticate find_client_installation_by_token looked_up
  authenticate_parsed now token prefix db good =
      rw (good, digest_parsed sha256_base64 token prefix good) (ground arith)

  -- Whoever is let in showed a well-formed token whose prefix and hash are those of an active
  -- installation in the table, and gets that installation.
  pub authenticate_token_sound :
      (now : ℕ) (token : Text) (db : Database Num) (i : Installation)
      → (authenticate sha256_base64 text_lt faults now token db).0 ≡ ok i
      → (prefix : Text) × (row : Installation) × IsIssued token prefix
        × (first_where (has_token prefix (sha256_base64 token)) db.clients ≡ some row)
        × (row.token_hash ≡ sha256_base64 token)
        × IsAdmitted now row i
  unfolding authenticate looked_up has_token
  authenticate_token_sound now token db i h = elim (Result-cases (parse_token token)) [
    | inr (e, bad) ↦ cc (rw (authenticate, bad) at h)
    | inl (prefix, good) ↦
        let h' : (admit sha256_base64 text_lt faults now (looked_up prefix token db) db).0 ≡ ok i =
          ground (arith, authenticate_parsed now token prefix db good) in
        let (row, found, admitted) = admit_sound now (looked_up prefix token db) db i h' in
        let hit = first_where-true (has_token prefix (sha256_base64 token)) db.clients row found in
        (
          prefix,
          row,
          parse_token_sound token prefix good,
          found,
          ground (arith, hit, eq_iff row.token_hash (sha256_base64 token)),
          admitted,
        )
  ]
