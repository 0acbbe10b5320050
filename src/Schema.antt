-- ===== src/Schema.antt =====
-- The access to PostgreSQL: internal/infra/database/dialect.go and database.go. The database is the table
-- schema_migrations with the statements that were committed; a migration runs in one transaction. What fails
-- in a start of the program is a `Trouble`; `contents` are the embedded files.
pub mod Placeholders
pub mod Progress
pub mod Upgrade
pub mod Tests
use wildman_service.Base.{
  ℕ, zero, suc, ◌+◌, ◌/◌, ◌%◌, String, Bool, not, List, [], ◌∷◌, ◌++◌, map, ltb, if◌then◌else◌,
  Exec, continue, exists_where, int_eq, string_eq, nat_eq, ◌==◌, list_eq, Text, any_code,
  trim_space, ok, err,
}

-- strconv.Itoa; a number has at most as many digits as its value plus one.
unfoldable pub decimal : ℕ → ℕ → Text
decimal zero n = []
decimal (suc fuel) n =
    let digits = decimal fuel (n / 10) in
    if ltb n 10 then (48 + n) ∷ [] else digits ++ ((48 + n % 10) ∷ [])

abbrev pub itoa : ℕ → Text
itoa n = decimal (suc n) n

-- The loop of rebind.
unfoldable pub rebind_from : ℕ → Text → Text
unfolding decimal
rebind_from parameter [] = []
rebind_from parameter (c ∷ s) =
    let numbered = rebind_from (parameter + 1) s in
    let same = rebind_from parameter s in
    if c == b'?' then b'$' ∷ (itoa parameter ++ numbered) else c ∷ same

-- rebind
unfoldable pub rebind : Text → Text
unfolding rebind_from any_code
rebind query = if not (any_code (λ c. c == b'?') query) then query else rebind_from 1 query

pub record Migration : Type 0 where
  pub version : ℕ
  pub file : String

-- migrations
unfoldable pub migrations : List Migration
migrations =
    record { version = 1; file = "migrations/001_initial.sql" }
    ∷ record { version = 2; file = "migrations/002_central_catalog.sql" }
    ∷ record { version = 3; file = "migrations/003_observation_track_position.sql" }
    ∷ record { version = 4; file = "migrations/004_resolution_candidate_source.sql" }
    ∷ record { version = 5; file = "migrations/005_candidate_tag_patch.sql" }
    ∷ record { version = 6; file = "migrations/006_resolution_reviews.sql" }
    ∷ record { version = 7; file = "migrations/007_audit_events.sql" }
    ∷ record { version = 8; file = "migrations/008_candidate_sources.sql" }
    ∷ record { version = 9; file = "migrations/009_accounts_devices_billing.sql" }
    ∷ record { version = 10; file = "migrations/010_provider_metrics.sql" }
    ∷ []

pub record Schema : Type 0 where
  pub versions : List ℕ
  pub executed : List Text

-- Which of the calls for a version fail, and which statements the database refuses.
pub record Trouble : Type 0 where
  pub checking : ℕ → Bool
  pub reading : ℕ → Bool
  pub beginning : ℕ → Bool
  pub refuses : ℕ → Text → Bool
  pub recording : ℕ → Bool
  pub committing : ℕ → Bool

pub data Error : Type 0 where
  check_failed read_failed begin_failed apply_failed record_failed commit_failed : Error

-- strings.Split at a code point: the first part, and the others.
unfoldable pub split : ℕ → Text → Text × List Text
split separator [] = ([], [])
split separator (c ∷ s) =
    let (first, rest) = split separator s in
    if c == separator then ([], first ∷ rest) else (c ∷ first, rest)

unfoldable pub nonempty : List Text → List Text
unfolding trim_space
nonempty [] = []
nonempty (s ∷ more) =
    let rest = nonempty more in
    let trimmed = trim_space s in if trimmed == [] then rest else trimmed ∷ rest

-- The statements of a file, as ExecContext sends them.
unfoldable pub statements : Text → List Text
unfolding split nonempty rebind
statements contents =
    let (first, rest) = split b';' contents in map rebind (nonempty (first ∷ rest))

module _ (contents : String → Text) where
  -- The transaction of a migration.
  unfoldable pub run_migration : Trouble → Migration → Exec Error Schema (Unit {0})
  unfolding statements
  run_migration t m s =
      if t.reading m.version
      then (err read_failed, s)
      else if t.beginning m.version
      then (err begin_failed, s)
      else if exists_where (t.refuses m.version) (statements (contents m.file))
      then (err apply_failed, s)
      else if t.recording m.version
      then (err record_failed, s)
      else if t.committing m.version
      then (err commit_failed, s)
      else (
        ok tt,
        record {
          versions = s.versions ++ (m.version ∷ []);
          executed = s.executed ++ statements (contents m.file);
        },
      )

  -- The body of the loop.
  unfoldable pub apply_migration : Trouble → Migration → Exec Error Schema (Unit {0})
  unfolding run_migration
  apply_migration t m s =
      if t.checking m.version
      then (err check_failed, s)
      else if exists_where (λ v. v == m.version) s.versions
      then (ok tt, s)
      else run_migration t m s

  -- applyMigrations, over the list.
  unfoldable pub apply_all : Trouble → List Migration → Exec Error Schema (Unit {0})
  unfolding apply_migration
  apply_all t [] s = (ok tt, s)
  apply_all t (m ∷ ms) s =
      let (r, s') = apply_migration t m s in continue r (λ _. apply_all t ms) s'

  -- applyMigrations
  unfoldable pub apply_migrations : Trouble → Exec Error Schema (Unit {0})
  unfolding apply_all migrations
  apply_migrations t = apply_all t migrations
