-- ===== src/Resolution/Ranking.antt =====
-- How CompleteRequest orders and numbers candidates: internal/app/resolution/service.go.
pub mod Order
pub mod Numbers
use wildman_service.Base.{
  ℕ, ◌+◌, String, Bool, true, false, none, List, [], ◌∷◌, if◌then◌else◌, length, int_eq, ◌==◌,
  nat_eq, string_eq, list_eq, codes, text_after,
}
use wildman_service.Catalog.{Candidate}

-- The comparison function, where it is positive: the left candidate goes after the right one.
pub goes_after : {Num : Type 0} → (Num → Num → Bool) → Candidate Num → Candidate Num → Bool
unfolding text_after
goes_after lt left right =
    if lt right.score left.score
    then false
    else if lt left.score right.score
    then true
    else text_after (codes left.recording.id) (codes right.recording.id)

unfoldable pub insert_candidate :
    {Num : Type 0}
    → (Num → Num → Bool)
    → Candidate Num
    → List (Candidate Num)
    → List (Candidate Num)
unfolding goes_after
insert_candidate lt c [] = c ∷ []
insert_candidate lt c (d ∷ ds) =
    let rest = insert_candidate lt c ds in if goes_after lt c d then d ∷ rest else c ∷ d ∷ ds

-- slices.SortStableFunc
unfoldable pub sort_candidates :
    {Num : Type 0} → (Num → Num → Bool) → List (Candidate Num) → List (Candidate Num)
unfolding insert_candidate
sort_candidates lt [] = []
sort_candidates lt (c ∷ cs) = insert_candidate lt c (sort_candidates lt cs)

-- The source of a candidate, "catalog" where it has none.
pub source_of : String → String
source_of s = if s == "" then "catalog" else s

-- The body of the loop, at an index.
unfoldable pub number_candidate : {Num : Type 0} → (ℕ → String) → ℕ → Candidate Num → Candidate Num
unfolding source_of
number_candidate new_id index c = record c {
  id = new_id index;
  rank = index + 1;
  source = source_of c.source;
  sources = if length c.sources == 0 then source_of c.source ∷ [] else c.sources;
}

-- The loop from an index on. `new_id` gives the random ids.
unfoldable pub number_candidates :
    {Num : Type 0} → (ℕ → String) → ℕ → List (Candidate Num) → List (Candidate Num)
unfolding number_candidate
number_candidates new_id index [] = []
number_candidates new_id index (c ∷ cs) =
    number_candidate new_id index c ∷ number_candidates new_id (index + 1) cs
