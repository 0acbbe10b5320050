-- ===== src/Schema/Upgrade.antt =====
-- Every start of the program leaves the migrations applied up to one of them, each once and in their order.
use wildman_service.Base.{
  ℕ, String, ◌≡◌, refl, sym, ap, subst, ◌∙◌, inl, inr, false, List, [], ◌∷◌, ◌++◌, arith,
  Bool-cases, exists_where-nowhere, exists_where, int_eq, string_eq, nat_eq, ◌==◌, list_eq, Text,
  append_append, append_nil, ok,
}
use wildman_service.Schema.{
  Migration, Schema, Trouble, statements, run_migration, apply_migration, apply_all, migrations,
  apply_migrations,
}
use wildman_service.Schema.Progress.{
  HaveOwnVersions, all_statements, IsAt, Progress, apply_all-Progress,
}

module _ (contents : String → Text) where
  -- Starts of the program, one after another, each with its own trouble.
  unfoldable pub after_starts : List Migration → List Trouble → Schema → Schema
  after_starts ms [] s = s
  after_starts ms (t ∷ ts) s = after_starts ms ts (apply_all contents t ms s).1

  some_starts :
      (ms : List Migration) (ts : List Trouble) (done todo : List Migration) (s : Schema)
      → HaveOwnVersions ms
      → ms ≡ done ++ todo
      → IsAt contents done s
      → (before rest : List Migration) × (ms ≡ before ++ rest)
        × IsAt contents before (after_starts ms ts s)
  unfolding after_starts
  some_starts ms [] done todo s own e at = (done, todo, e, at)
  some_starts ms (t ∷ ts) done todo s own e at =
      let p : Progress contents done todo (apply_all contents t ms s) =
        subst (λ l. Progress contents done todo (apply_all contents t l s)) (sym e)
          (apply_all-Progress contents t done todo s (subst HaveOwnVersions e own) at) in
      some_starts ms ts (done ++ p.more) p.rest (apply_all contents t ms s).1 own
        (e ∙ (ap (λ l. done ++ l) p.parts ∙ sym (append_append done p.more p.rest))) p.reached

  last_start :
      (t : Trouble) (ms done todo : List Migration) (s : Schema)
      → HaveOwnVersions ms
      → ms ≡ done ++ todo
      → IsAt contents done s
      → (apply_all contents t ms s).0 ≡ ok tt
      → IsAt contents ms (apply_all contents t ms s).1
  last_start t ms done todo s own e at h =
      let p : Progress contents done todo (apply_all contents t ms s) =
        subst (λ l. Progress contents done todo (apply_all contents t l s)) (sym e)
          (apply_all-Progress contents t done todo s (subst HaveOwnVersions e own) at) in
      let all : done ++ p.more ≡ ms = sym (
        e
        ∙ ap (λ l. done ++ l)
            (p.parts ∙ (ap (λ l. p.more ++ l) (p.finished h) ∙ sym (append_nil p.more)))) in
      subst (λ l. IsAt contents l (apply_all contents t ms s).1) all p.reached

  -- Nothing fails.
  pub record IsCalm (t : Trouble) : Type 0 where
    pub checks : (v : ℕ) → t.checking v ≡ false
    pub reads : (v : ℕ) → t.reading v ≡ false
    pub begins : (v : ℕ) → t.beginning v ≡ false
    pub accepts : (v : ℕ) (statement : Text) → t.refuses v statement ≡ false
    pub records : (v : ℕ) → t.recording v ≡ false
    pub commits : (v : ℕ) → t.committing v ≡ false

  calm_start :
      (t : Trouble) (ms : List Migration) (s : Schema)
      → IsCalm t
      → (apply_all contents t ms s).0 ≡ ok tt
  unfolding apply_all apply_migration run_migration
  calm_start t [] s c = refl
  calm_start t (m ∷ ms) s c = elim (Bool-cases (exists_where (λ v. v == m.version) s.versions)) [
    | inl old ↦ rw (apply_migration, c.checks m.version, old) (calm_start t ms s c)
    | inr new ↦
        rw
          (
            apply_migration,
            c.checks m.version,
            new,
            run_migration,
            c.reads m.version,
            c.begins m.version,
            exists_where-nowhere (t.refuses m.version) (statements (contents m.file))
                (c.accepts m.version),
            c.records m.version,
            c.commits m.version,
          )
          (calm_start t ms _ c)
  ]

  migrations_own : HaveOwnVersions migrations
  unfolding migrations
  migrations_own = omega arith

  -- However often the program has been started on an empty database, and whatever failed each time, the database
  -- has recorded some of the migrations from the first on, in their order, and has executed their statements,
  -- each once and in their order, and no others. A further start that succeeds brings it to the last
  -- migration, and a start in which nothing fails succeeds.
  pub apply_migrations-upgrades :
      (ts : List Trouble)
      → let s = after_starts migrations ts (record { versions = []; executed = [] }) in
        ((before rest : List Migration) × (migrations ≡ before ++ rest) × IsAt contents before s)
        × ((t : Trouble)
            → (apply_migrations contents t s).0 ≡ ok tt
            → IsAt contents migrations (apply_migrations contents t s).1)
        × ((t : Trouble) → IsCalm t → (apply_migrations contents t s).0 ≡ ok tt)
  unfolding apply_migrations all_statements
  apply_migrations-upgrades ts =
      let s = after_starts migrations ts (record { versions = []; executed = [] }) in
      let (before, rest, e, at) =
        some_starts migrations ts [] migrations (record { versions = []; executed = [] })
          migrations_own refl (refl, refl) in
      (
        (before, rest, e, at),
        λ t h. last_start t migrations before rest s migrations_own e at h,
        λ t c. calm_start t migrations s c,
      )
