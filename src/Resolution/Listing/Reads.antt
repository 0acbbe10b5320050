-- ===== src/Resolution/Listing/Reads.antt =====
-- What the listing reads of the rows that a completion inserts.
use wildman_service.Base.{
  ℕ, ◌+◌, String, ◌≡◌, refl, inl, inr, Bool, true, Option, none, some, List, [], ◌∷◌, arith,
  Bool-cases, length, All, int_eq, string_eq, nat_eq, ◌==◌, list_eq, select_where, IsInOrder,
}
use wildman_service.Catalog.{Candidate, Release}
use wildman_service.Catalog.Store.{get_recording, get_release}
use wildman_service.Catalog.Rows.{Tables}
use wildman_service.Resolution.Tables.{candidate_rows, stored_candidate}
use wildman_service.Resolution.Ranking.{
  sort_candidates, insert_candidate, goes_after, number_candidate, number_candidates,
}
use wildman_service.Resolution.Ranking.Order.{IsRanked}
use wildman_service.Resolution.Listing.{
  with_release, with_recording, read_candidate, read_candidates, later_rank,
}
use wildman_service.Database.{CandidateRow}

abbrev pub IsReleased : Tables → Option Release → Type 0
IsReleased t none = Unit
IsReleased t (some v) = get_release t v.id ≡ some v

-- The catalog has the recording and the release of a candidate as they stand in it.
abbrev pub IsCatalogued : {Num : Type 0} → Tables → Candidate Num → Type 0
IsCatalogued t c = (get_recording t c.recording.id ≡ some c.recording) × IsReleased t c.release

module _ {Num : Type 0} (t : Tables) where
  read_release :
      (c : Candidate Num) (release : Option Release)
      → IsReleased t release
      → with_release t c release ≡ some (record c { release = release })
  unfolding with_release
  read_release c none h = refl
  read_release c (some v) h = rw h refl

  read_candidate_lem : (c : Candidate Num) → IsCatalogued t c → read_candidate t c ≡ some c
  unfolding read_candidate with_recording
  read_candidate_lem c h = rw h.0 (read_release c c.release h.1)

  All-insert_candidate :
      (lt : Num → Num → Bool) (c : Candidate Num) (cs : List (Candidate Num))
      → IsCatalogued t c
      → All (IsCatalogued t) cs
      → All (IsCatalogued t) (insert_candidate lt c cs)
  unfolding insert_candidate
  All-insert_candidate lt c [] h hs = (h, tt)
  All-insert_candidate lt c (d ∷ ds) h hs = elim (Bool-cases (goes_after lt c d)) [
    | inl e ↦ rw e (hs.0, All-insert_candidate lt c ds h hs.1)
    | inr e ↦ rw e (h, hs)
  ]

  pub All-sort_candidates :
      (lt : Num → Num → Bool) (cs : List (Candidate Num))
      → All (IsCatalogued t) cs
      → All (IsCatalogued t) (sort_candidates lt cs)
  unfolding sort_candidates
  All-sort_candidates lt [] hs = tt
  All-sort_candidates lt (c ∷ cs) hs =
      All-insert_candidate lt c (sort_candidates lt cs) hs.0 (All-sort_candidates lt cs hs.1)

  -- A numbered candidate has a source, so its row holds what it holds.
  stored-number :
      (new_id : ℕ → String) (n : ℕ) (c : Candidate Num)
      → stored_candidate (number_candidate new_id n c) ≡ number_candidate new_id n c
  unfolding stored_candidate number_candidate
  stored-number new_id n c = elim (Bool-cases (length c.sources == 0)) [
    | inl e ↦ rw e refl
    | inr e ↦ rw e (rw e refl)
  ]

  pub read_candidates-number :
      (new_id : ℕ → String) (request_id : String) (n : ℕ) (cs : List (Candidate Num))
      → All (IsCatalogued t) cs
      → read_candidates t (candidate_rows request_id (number_candidates new_id n cs))
        ≡ some (number_candidates new_id n cs)
  unfolding read_candidates candidate_rows number_candidates
  read_candidates-number new_id request_id n [] hs = refl
  read_candidates-number new_id request_id n (c ∷ cs) hs =
      let known : IsCatalogued t (number_candidate new_id n c) = unfold number_candidate in hs.0 in
      rw
        (
          stored-number new_id n c,
          read_candidate_lem (number_candidate new_id n c) known,
          read_candidates-number new_id request_id (n + 1) cs hs.1,
        )
        refl

rank-stored : {Num : Type 0} (c : Candidate Num) → (stored_candidate c).rank ≡ c.rank
unfolding stored_candidate
rank-stored c = elim (Bool-cases (length c.sources == 0)) [ inl e ↦ rw e refl | inr e ↦ rw e refl ]

pub rows-IsInOrder :
    {Num : Type 0} (request_id : String) (n : ℕ) (cs : List (Candidate Num))
    → IsRanked n cs
    → IsInOrder later_rank (candidate_rows request_id cs)
unfolding candidate_rows later_rank
rows-IsInOrder request_id n [] h = tt
rows-IsInOrder request_id n (c ∷ []) h = tt
rows-IsInOrder request_id n (c ∷ d ∷ ds) h = (
  ground (arith, h.0, h.1.0, rank-stored c, rank-stored d),
  rows-IsInOrder request_id (n + 1) (d ∷ ds) h.1,
)

pub select-rows :
    {Num : Type 0} (p : CandidateRow Num → Bool) (request_id : String) (cs : List (Candidate Num))
    → ((c : Candidate Num)
        → p (record { request_id = request_id; candidate = stored_candidate c }) ≡ true)
    → select_where p (candidate_rows request_id cs) ≡ candidate_rows request_id cs
unfolding select_where candidate_rows
select-rows p request_id [] k = refl
select-rows p request_id (c ∷ cs) k = rw (k c, select-rows p request_id cs k) refl
