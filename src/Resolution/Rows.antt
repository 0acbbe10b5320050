-- ===== src/Resolution/Rows.antt =====
-- Tables of requests whose rows are as their states have them, and the updates that keep them so.
use wildman_service.Base.{
  ℕ, String, ◌≡◌, refl, subst, ◌∙◌, inl, inr, Bool, true, false, not, ◌&&◌, some, List, [], ◌∷◌,
  ◌++◌, arith, eq_iff, Bool-cases, Option-cases, is_some, All, exists_where, update_where,
  exists-append, int_eq, string_eq, nat_eq, ◌==◌, eq_self, list_eq,
}
use wildman_service.Catalog.{
  ResolutionRequest, ResolutionStatus, queued, matching, matched, no_match, failed, status_beq,
  Candidate,
}
use wildman_service.Resolution.Tables.{
  finish_row, claim_row, fail_row, in_progress, has_status, sooner_of, oldest_queued, outcome,
}

-- What the columns of a request hold in each state.
abbrev pub state_holds : ResolutionStatus → Bool → Bool → Bool → Bool
state_holds queued started finished clear = not started && not finished && clear
state_holds matching started finished clear = started && not finished && clear
state_holds matched started finished clear = finished && clear
state_holds no_match started finished clear = finished && clear
state_holds failed started finished clear = started && finished

abbrev pub row_holds : ResolutionRequest → Bool
row_holds r =
    state_holds r.status (is_some r.started_at) (is_some r.finished_at) (r.last_error_code == "")

-- Requests with different ids, each with the columns of its state.
abbrev pub AreSound : List ResolutionRequest → Type 0
AreSound [] = Unit
AreSound (r ∷ rs) =
    (row_holds r ≡ true) × (exists_where (λ q. q.id == r.id) rs ≡ false) × AreSound rs

module _ (p : ResolutionRequest → Bool) (f : ResolutionRequest → ResolutionRequest)
    (same : (r : ResolutionRequest) → (f r).id ≡ r.id) where
  exists-update :
      (id : String) (rs : List ResolutionRequest)
      → exists_where (λ q. q.id == id) (update_where p f rs) ≡ exists_where (λ q. q.id == id) rs
  unfolding exists_where update_where
  exists-update id [] = refl
  exists-update id (r ∷ rs) = elim (Bool-cases (p r)) [
    | inl hit ↦ rw (hit, same r, exists-update id rs) refl
    | inr miss ↦ rw (miss, exists-update id rs) refl
  ]

  -- An update that keeps ids and makes sound rows of the rows that it meets.
  pub update-AreSound :
      (rs : List ResolutionRequest)
      → All (λ r. p r ≡ true → row_holds r ≡ true → row_holds (f r) ≡ true) rs
      → AreSound rs
      → AreSound (update_where p f rs)
  unfolding update_where
  update-AreSound [] k s = tt
  update-AreSound (r ∷ rs) k s =
      let rest = update-AreSound rs k.1 s.2 in
      let alone = exists-update r.id rs in
      elim (Bool-cases (p r)) [
        | inl hit ↦ rw (hit, same r) (k.0 hit s.0, alone ∙ s.1, rest)
        | inr miss ↦ rw miss (s.0, alone ∙ s.1, rest)
      ]

pub All-rows :
    {P : ResolutionRequest → Type 0} (rs : List ResolutionRequest)
    → ((r : ResolutionRequest) → P r)
    → All P rs
All-rows [] h = tt
All-rows (r ∷ rs) h = (h r, All-rows rs h)

pub snoc-AreSound :
    (r : ResolutionRequest) (rs : List ResolutionRequest)
    → row_holds r ≡ true
    → exists_where (λ q. q.id == r.id) rs ≡ false
    → AreSound rs
    → AreSound (rs ++ (r ∷ []))
unfolding exists_where
snoc-AreSound r [] h new s = (h, refl, tt)
snoc-AreSound r (q ∷ rs) h new s = (
  s.0,
  ground (arith, exists-append (λ p. p.id == q.id) rs r, s.1, eq_iff q.id r.id, eq_iff r.id q.id),
  snoc-AreSound r rs h (ground arith) s.2,
)

none_match :
    (p : ResolutionRequest → Bool) (id : String) (rs : List ResolutionRequest)
    → exists_where (λ q. q.id == id) rs ≡ false
    → All (λ q. (q.id == id) ≡ true → p q ≡ true) rs
unfolding exists_where
none_match p id [] h = tt
none_match p id (q ∷ rs) h =
    (λ e. absurd (ground (arith, h, e)), none_match p id rs (ground (arith, h)))

oldest_exists :
    (sooner : ResolutionRequest → ResolutionRequest → Bool) (r : ResolutionRequest)
    (rs : List ResolutionRequest)
    → oldest_queued sooner rs ≡ some r
    → exists_where (λ q. q.id == r.id) rs ≡ true
unfolding oldest_queued exists_where sooner_of
oldest_exists sooner r [] h = absurd (ground (arith, h))
oldest_exists sooner r (q ∷ rs) h = elim (Bool-cases (has_status queued q)) [
  | inr other ↦ ground (arith, oldest_exists sooner r rs, other)
  | inl waiting ↦ elim (Option-cases (oldest_queued sooner rs)) [
    | inl e ↦ ground (arith, waiting, e, h, eq_self r.id)
    | inr (p, e) ↦ elim (Bool-cases (sooner p q)) [
      | inl before ↦ ground (arith, oldest_exists sooner r rs, waiting, before, e, h)
      | inr after ↦ ground (arith, waiting, after, e, h, eq_self r.id)
    ]
  ]
]

-- The row that is claimed is queued, and no other row has its id.
pub claimed_rows :
    (sooner : ResolutionRequest → ResolutionRequest → Bool) (r : ResolutionRequest)
    (rs : List ResolutionRequest)
    → AreSound rs
    → oldest_queued sooner rs ≡ some r
    → All (λ q. (q.id == r.id) ≡ true → has_status queued q ≡ true) rs
unfolding oldest_queued sooner_of
claimed_rows sooner r [] s h = tt
claimed_rows sooner r (q ∷ rs) s h = elim (Bool-cases (has_status queued q)) [
  | inr other ↦
      let rest : oldest_queued sooner rs ≡ some r = ground (arith, other, h) in
      (
        λ e. absurd (ground (arith, oldest_exists sooner r rs rest, s.1, (eq_iff q.id r.id).0 e)),
        claimed_rows sooner r rs s.2 rest,
      )
  | inl waiting ↦ (
    λ _. waiting,
    elim (Option-cases (oldest_queued sooner rs)) [
      | inl e ↦ itself waiting (ground (arith, waiting, e, h))
      | inr (p, e) ↦ elim (Bool-cases (sooner p q)) [
        | inl before ↦ claimed_rows sooner r rs s.2 (ground (arith, waiting, before, e, h))
        | inr after ↦ itself waiting (ground (arith, waiting, after, e, h))
      ]
    ],
  )
]
  where
    itself :
        has_status queued q ≡ true
        → q ≡ r
        → All (λ x. (x.id == r.id) ≡ true → has_status queued x ≡ true) rs
    itself waiting e =
        none_match (has_status queued) r.id rs
          (subst (λ (x : ResolutionRequest). exists_where (λ y. y.id == x.id) rs ≡ false) e s.1)

claimed_state :
    (s : ResolutionStatus) (a b c : Bool)
    → status_beq s queued ≡ true
    → state_holds s a b c ≡ true
    → state_holds matching true b c ≡ true
unfolding status_beq
claimed_state queued a b c h k = ground (arith, k)
claimed_state matching a b c h k = absurd (ground (arith, h))
claimed_state matched a b c h k = absurd (ground (arith, h))
claimed_state no_match a b c h k = absurd (ground (arith, h))
claimed_state failed a b c h k = absurd (ground (arith, h))

failed_state :
    (s : ResolutionStatus) (a b c : Bool)
    → status_beq s matching ≡ true
    → state_holds s a b c ≡ true
    → a ≡ true
unfolding status_beq
failed_state queued a b c h k = absurd (ground (arith, h))
failed_state matching a b c h k = ground (arith, k)
failed_state matched a b c h k = absurd (ground (arith, h))
failed_state no_match a b c h k = absurd (ground (arith, h))
failed_state failed a b c h k = absurd (ground (arith, h))

-- A claimed row has the columns of its new state.
claim_row_holds :
    (now : ℕ) (q : ResolutionRequest)
    → has_status queued q ≡ true
    → row_holds q ≡ true
    → row_holds (claim_row now q) ≡ true
unfolding has_status status_beq claim_row
claim_row_holds now q waiting h =
    claimed_state q.status (is_some q.started_at) (is_some q.finished_at) (q.last_error_code == "")
      waiting h

pub claim-All :
    (p : ResolutionRequest → Bool) (now : ℕ) (rs : List ResolutionRequest)
    → All (λ q. p q ≡ true → has_status queued q ≡ true) rs
    → All (λ q. p q ≡ true → row_holds q ≡ true → row_holds (claim_row now q) ≡ true) rs
claim-All p now [] k = tt
claim-All p now (q ∷ rs) k = (λ hit h. claim_row_holds now q (k.0 hit) h, claim-All p now rs k.1)

pub finish_row_holds :
    {Num : Type 0} (cs : List (Candidate Num)) (at : ℕ) (q : ResolutionRequest)
    → row_holds (finish_row (outcome cs) at q) ≡ true
unfolding outcome finish_row
finish_row_holds [] at q = refl
finish_row_holds (c ∷ cs) at q = refl

pub fail_row_holds :
    (client_id request_id code : String) (at : ℕ) (q : ResolutionRequest)
    → in_progress client_id request_id q ≡ true
    → row_holds q ≡ true
    → row_holds (fail_row code at q) ≡ true
unfolding in_progress status_beq fail_row
fail_row_holds client_id request_id code at q busy h = ground (
  arith,
  failed_state q.status (is_some q.started_at) (is_some q.finished_at) (q.last_error_code == ""),
  busy,
  h,
)
