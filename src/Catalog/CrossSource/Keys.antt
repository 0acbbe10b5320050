-- ===== src/Catalog/CrossSource/Keys.antt =====
-- Merged candidates have different keys.
use wildman_service.Base.{
  ◌≡◌, refl, ◌≢◌, inl, inr, Bool, false, not, ◌&&◌, none, List, [], ◌∷◌, Bool-cases, length,
  exists_where, int_eq, ◌==◌, nat_eq, string_eq, list_eq, Text,
}
use wildman_service.Unicode.{Unicode}
use wildman_service.Catalog.{Candidate}
use wildman_service.Catalog.Arithmetic.{Arithmetic}
use wildman_service.Catalog.CrossSource.{Merged, candidate_merge_key, with_sources, find_index}

module _ {Num : Type 0} (u : Unicode) (num : Arithmetic Num) where
  abbrev has_key : Text → Candidate Num → Bool
  has_key key c = candidate_merge_key u c == key

  -- No two candidates have the same key, unless it is empty.
  abbrev pub HaveOwnKeys : List (Candidate Num) → Type 0
  HaveOwnKeys [] = Unit
  HaveOwnKeys (c ∷ cs) =
      (candidate_merge_key u c ≢ [] → exists_where (has_key (candidate_merge_key u c)) cs ≡ false)
      × HaveOwnKeys cs

  with_sources-key :
      (c : Candidate Num) → candidate_merge_key u (with_sources c) ≡ candidate_merge_key u c
  unfolding candidate_merge_key with_sources
  with_sources-key c = elim (Bool-cases (length c.sources == 0 && not (c.source == ""))) [
    | inl e ↦ rw e refl
    | inr e ↦ rw e refl
  ]

  -- The map of indexes has every key that was met.
  record Consistent (m : Merged Num) : Type 0 where
    own : HaveOwnKeys m.merged
    indexed :
        (key : Text) → find_index key m.indexes ≡ none → exists_where (has_key key) m.merged ≡ false
