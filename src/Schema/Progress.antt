-- ===== src/Schema/Progress.antt =====
-- How far one start of the program brings the migrations.
use wildman_service.Base.{
  ℕ, String, ◌≡◌, refl, sym, ap, subst, ◌∙◌, ◌≢◌, ◌⊎◌, inl, inr, true, false, List, [], ◌∷◌, ◌++◌,
  map, arith, Bool-cases, Result, All-map, Finds, All-Finds, All-both, All-right, exists_where-map,
  All, All-append, exists_where, int_eq, string_eq, nat_eq, ◌==◌, eq_self, list_eq, Text,
  append_assoc, append_append, append_nil, ok, err,
}
use wildman_service.Schema.{
  Migration, Schema, Trouble, Error, check_failed, read_failed, begin_failed, apply_failed,
  record_failed, commit_failed, statements, run_migration, apply_migration, apply_all,
}

-- No version stands twice in the list.
abbrev pub HaveOwnVersions : List Migration → Type 0
HaveOwnVersions [] = Unit
HaveOwnVersions (m ∷ ms) = All (λ k. k.version ≢ m.version) ms × HaveOwnVersions ms

module _ (contents : String → Text) where
  -- The statements of the migrations, one after another.
  unfoldable pub all_statements : List Migration → List Text
  all_statements [] = []
  all_statements (m ∷ ms) = statements (contents m.file) ++ all_statements ms

  abbrev pub IsAt : List Migration → Schema → Type 0
  IsAt done s = (s.versions ≡ map (λ m. m.version) done) × (s.executed ≡ all_statements done)

  all_statements-append :
      (ms : List Migration) (m : Migration)
      → all_statements (ms ++ (m ∷ [])) ≡ all_statements ms ++ statements (contents m.file)
  unfolding all_statements
  all_statements-append [] m = sym (append_nil (statements (contents m.file)))
  all_statements-append (k ∷ ms) m =
      ap (λ (t : List Text). statements (contents k.file) ++ t) (all_statements-append ms m)
      ∙ sym (
          append_append (statements (contents k.file)) (all_statements ms)
            (statements (contents m.file)))

  versions-append :
      (ms : List Migration) (m : Migration)
      → map (λ (k : Migration). k.version) (ms ++ (m ∷ []))
        ≡ map (λ k. k.version) ms ++ (m.version ∷ [])
  versions-append [] m = refl
  versions-append (k ∷ ms) m = ap (λ (t : List ℕ). k.version ∷ t) (versions-append ms m)

  unrecorded :
      (v : ℕ) (done : List Migration)
      → All (λ k. v ≢ k.version) done
      → exists_where (λ w. w == v) (map (λ k. k.version) done) ≡ false
  unfolding exists_where
  unrecorded v [] h = refl
  unrecorded v (k ∷ done) h = ground (arith, unrecorded v done h.1, h.0)

  -- One migration that is not recorded: it is applied, or nothing happens.
  run_migration-cases :
      (t : Trouble) (m : Migration) (s : Schema)
      → (run_migration contents t m s ≡ (
        ok tt,
        record {
          versions = s.versions ++ (m.version ∷ []);
          executed = s.executed ++ statements (contents m.file);
        },
      ))
        ⊎ ((e : Error) × (run_migration contents t m s ≡ (err e, s)))
  unfolding run_migration
  run_migration-cases t m s = elim (Bool-cases (t.reading m.version)) [
    | inl a ↦ inr (read_failed, rw a refl)
    | inr a ↦ elim (Bool-cases (t.beginning m.version)) [
      | inl b ↦ inr (begin_failed, rw (a, b) refl)
      | inr b ↦
          elim (Bool-cases (exists_where (t.refuses m.version) (statements (contents m.file)))) [
            | inl c ↦ inr (apply_failed, rw (a, b, c) refl)
            | inr c ↦ elim (Bool-cases (t.recording m.version)) [
              | inl d ↦ inr (record_failed, rw (a, b, c, d) refl)
              | inr d ↦ elim (Bool-cases (t.committing m.version)) [
                | inl e ↦ inr (commit_failed, rw (a, b, c, d, e) refl)
                | inr e ↦ inl (rw (a, b, c, d, e) refl)
              ]
            ]
          ]
    ]
  ]

  -- How far a start has come: it applied some of the migrations that were to be done, all if it succeeded.
  pub record Progress (done todo : List Migration) (out : Result Error (Unit {0}) × Schema)
      : Type 0 where
    pub more : List Migration
    pub rest : List Migration
    pub parts : todo ≡ more ++ rest
    pub reached : IsAt (done ++ more) out.1
    pub finished : out.0 ≡ ok tt → rest ≡ []

  stopped :
      (done todo : List Migration) (e : Error) (s : Schema)
      → IsAt done s
      → Progress done todo (err e, s)
  stopped done todo e s at = record {
    more = [];
    rest = todo;
    parts = refl;
    reached = subst (λ ms. IsAt ms s) (append_nil done) at;
    finished = λ h. cc;
  }

  one_more :
      (done : List Migration) (m : Migration) (ms : List Migration)
      (out : Result Error (Unit {0}) × Schema)
      → Progress (done ++ (m ∷ [])) ms out
      → Progress done (m ∷ ms) out
  one_more done m ms out p = record {
    more = m ∷ p.more;
    rest = p.rest;
    parts = ap (λ (l : List Migration). m ∷ l) p.parts;
    reached = subst (λ l. IsAt l out.1) (append_assoc done m p.more) p.reached;
    finished = p.finished;
  }

  still_apart :
      (done : List Migration) (m : Migration) (ms : List Migration)
      → All (λ k. k.version ≢ m.version) ms
      → All (λ k. All (λ j. k.version ≢ j.version) done) ms
      → All (λ k. All (λ j. k.version ≢ j.version) (done ++ (m ∷ []))) ms
  still_apart done m [] own apart = tt
  still_apart done m (k ∷ ms) own apart = (
    All-append (λ j. k.version ≢ j.version) done (m ∷ []) apart.0 (own.0, tt),
    still_apart done m ms own.1 apart.1,
  )

  -- The migrations that are not recorded, from the state that the others have left.
  apply_rest :
      (t : Trouble) (done todo : List Migration) (s : Schema)
      → HaveOwnVersions todo
      → All (λ m. All (λ k. m.version ≢ k.version) done) todo
      → IsAt done s
      → Progress done todo (apply_all contents t todo s)
  unfolding apply_all apply_migration
  apply_rest t done [] s own apart at = record {
    more = [];
    rest = [];
    parts = refl;
    reached = subst (λ ms. IsAt ms s) (append_nil done) at;
    finished = λ h. refl;
  }
  apply_rest t done (m ∷ ms) s own apart at =
      let new : exists_where (λ v. v == m.version) s.versions ≡ false =
        ap (exists_where (λ v. v == m.version)) at.0 ∙ unrecorded m.version done apart.0 in
      elim (Bool-cases (t.checking m.version)) [
        | inl fails ↦ rw (apply_migration, fails) (stopped done (m ∷ ms) check_failed s at)
        | inr checked ↦ elim (run_migration-cases t m s) [
          | inr (e, bad) ↦ rw (apply_migration, checked, new, bad) (stopped done (m ∷ ms) e s at)
          | inl good ↦
              rw (apply_migration, checked, new, good)
                (one_more done m ms _ (
                  apply_rest t (done ++ (m ∷ [])) ms
                    (record {
                      versions = s.versions ++ (m.version ∷ []);
                      executed = s.executed ++ statements (contents m.file);
                    })
                    own.1 (still_apart done m ms own.0 apart.1)
                    (
                      ap (λ (vs : List ℕ). vs ++ (m.version ∷ [])) at.0
                          ∙ sym (versions-append done m),
                      ap (λ (ss : List Text). ss ++ statements (contents m.file)) at.1
                          ∙ sym (all_statements-append done m),
                    )))
        ]
      ]

  -- The recorded migrations are passed over, or a check fails.
  apply_done :
      (t : Trouble) (done todo : List Migration) (s : Schema)
      → All (λ m. exists_where (λ v. v == m.version) s.versions ≡ true) done
      → (apply_all contents t (done ++ todo) s ≡ apply_all contents t todo s)
        ⊎ (apply_all contents t (done ++ todo) s ≡ (err check_failed, s))
  unfolding apply_all apply_migration
  apply_done t [] todo s h = inl refl
  apply_done t (m ∷ done) todo s h = elim (Bool-cases (t.checking m.version)) [
    | inl fails ↦ inr (rw (apply_migration, fails) refl)
    | inr checked ↦ rw (apply_migration, checked, h.0) (apply_done t done todo s h.1)
  ]

  recorded :
      (done : List Migration) (s : Schema)
      → s.versions ≡ map (λ m. m.version) done
      → All (λ m. exists_where (λ v. v == m.version) s.versions ≡ true) done
  recorded done s at =
      All-map (Finds done) _ done
        (λ m found.
          ap (exists_where (λ v. v == m.version)) at
          ∙ (exists_where-map (λ v. v == m.version) (λ k. k.version) done
              ∙ found (λ k. k.version == m.version) (eq_self m.version)))
        (All-Finds done)

  own_parts :
      (done todo : List Migration)
      → HaveOwnVersions (done ++ todo)
      → HaveOwnVersions todo × All (λ m. All (λ k. m.version ≢ k.version) done) todo
  own_parts [] todo h = (h, nothing todo)
    where
      nothing : (ms : List Migration) → All (λ m. Unit {0}) ms
      nothing [] = tt
      nothing (m ∷ ms) = (tt, nothing ms)
  own_parts (d ∷ done) todo h =
      let (own, apart) = own_parts done todo h.1 in
      (own, All-both _ _ todo (All-right _ done todo h.0) apart)

  -- One start, from the state that an earlier one has left.
  pub apply_all-Progress :
      (t : Trouble) (done todo : List Migration) (s : Schema)
      → HaveOwnVersions (done ++ todo)
      → IsAt done s
      → Progress done todo (apply_all contents t (done ++ todo) s)
  apply_all-Progress t done todo s own at =
      let (fresh, apart) = own_parts done todo own in
      elim (apply_done t done todo s (recorded done s at.0)) [
        | inl passed ↦ rw passed (apply_rest t done todo s fresh apart at)
        | inr failed ↦ rw failed (stopped done todo check_failed s at)
      ]
