-- ===== src/Schema/Tests.antt =====
-- A query, and starts that fail.
use wildman_service.Base.{
  String, ◌≡◌, refl, false, List, [], ◌∷◌, ◌++◌, if◌then◌else◌, int_eq, string_eq, nat_eq, ◌==◌,
  list_eq, Text, codes, any_code, ok,
}
use wildman_service.Schema.{Migration, Trouble, rebind, migrations, apply_migrations}
use wildman_service.Schema.Placeholders.{with_marks, with_numbers, rebind-marks}
use wildman_service.Schema.Progress.{IsAt}
use wildman_service.Schema.Upgrade.{IsCalm, after_starts, apply_migrations-upgrades}

query_rebound : rebind (codes "a = ? AND b = ?") ≡ codes "a = $1 AND b = $2"
unfolding rebind
query_rebound = refl

rebind-marks_example :
    rebind (with_marks (codes "a = ") (codes " AND b = " ∷ [] ∷ []))
    ≡ with_numbers 1 (codes "a = ") (codes " AND b = " ∷ [] ∷ [])
unfolding any_code
rebind-marks_example =
    rebind-marks (codes "a = ") (codes " AND b = " ∷ [] ∷ []) refl (refl, (refl, tt))

abbrev file : String → Text
file name =
    if name == "migrations/001_initial.sql" then codes "CREATE a; CREATE b;" else codes "ALTER c"

-- The third migration is refused.
abbrev third_fails : Trouble
third_fails = record {
  checking = λ v. false;
  reading = λ v. false;
  beginning = λ v. false;
  refuses = λ v statement. v == 3;
  recording = λ v. false;
  committing = λ v. false;
}

apply_migrations-upgrades_example :
    let s =
      after_starts file migrations
        (third_fails ∷ third_fails ∷ [])
        (record { versions = []; executed = [] }) in
    ((before rest : List Migration) × (migrations ≡ before ++ rest) × IsAt file before s)
    × ((t : Trouble)
        → (apply_migrations file t s).0 ≡ ok tt
        → IsAt file migrations (apply_migrations file t s).1)
    × ((t : Trouble) → IsCalm file t → (apply_migrations file t s).0 ≡ ok tt)
apply_migrations-upgrades_example = apply_migrations-upgrades file (third_fails ∷ third_fails ∷ [])
