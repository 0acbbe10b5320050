-- ===== src/Resolution/Ranking/Numbers.antt =====
-- What numbering candidates keeps: how many there are, and how often each recording occurs.
use wildman_service.Base.{
  ℕ, ◌+◌, String, ◌≡◌, refl, ◌∙◌, Bool, List, [], ◌∷◌, arith, count_where, int_eq, nat_eq,
  string_eq, list_eq,
}
use wildman_service.Catalog.{Candidate, Recording}
use wildman_service.Resolution.Ranking.{number_candidate, number_candidates, sort_candidates}
use wildman_service.Resolution.Ranking.Order.{count-sort_candidates}

count-number_candidates :
    {Num : Type 0} (new_id : ℕ → String) (n : ℕ) (p : Recording → Bool) (cs : List (Candidate Num))
    → count_where (λ c. p c.recording) (number_candidates new_id n cs)
      ≡ count_where (λ c. p c.recording) cs
unfolding number_candidates number_candidate count_where
count-number_candidates new_id n p [] = refl
count-number_candidates new_id n p (c ∷ cs) =
    ground (arith, count-number_candidates new_id (n + 1) p cs)

pub count-rank_candidates :
    {Num : Type 0} (lt : Num → Num → Bool) (new_id : ℕ → String) (p : Recording → Bool)
    (cs : List (Candidate Num))
    → count_where (λ c. p c.recording) (number_candidates new_id 0 (sort_candidates lt cs))
      ≡ count_where (λ c. p c.recording) cs
count-rank_candidates lt new_id p cs =
    count-number_candidates new_id 0 p (sort_candidates lt cs)
    ∙ count-sort_candidates lt (λ c. p c.recording) cs
