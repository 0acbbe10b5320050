-- ===== src/Catalog/CrossSource.antt =====
-- The merge of candidates of several sources: internal/domain/catalog/cross_source.go.
pub mod Keys
use wildman_service.Base.{
  ℕ, zero, suc, String, not, ◌&&◌, ◌||◌, Option, none, some, List, [], ◌∷◌, ◌++◌, map, ltb,
  if◌then◌else◌, length, int_eq, ◌==◌, nat_eq, string_eq, contains, list_eq, Text, codes,
}
use wildman_service.Unicode.{Unicode, to_upper}
use wildman_service.Catalog.{Recording, Candidate}
use wildman_service.Catalog.Arithmetic.{Arithmetic, lesser}
use wildman_service.Catalog.Normalization.{normalize_text}
use wildman_service.Catalog.Scoring.{sort_texts, artist_names}

-- strings.Join
join : Text → List Text → Text
join separator [] = []
join separator (a ∷ []) = a
join separator (a ∷ b ∷ texts) = a ++ separator ++ join separator (b ∷ texts)

recording_key : Unicode → Recording → Text
unfolding join sort_texts artist_names normalize_text
recording_key u r =
    if not (r.isrc == [])
    then codes "isrc:" ++ to_upper u r.isrc
    else let artists = sort_texts (artist_names u r.artists) in
      if r.title == [] || length artists == 0
      then []
      else codes "metadata:" ++ normalize_text u r.title ++ codes ":" ++ join (codes "|") artists

-- candidateMergeKey
pub candidate_merge_key : {Num : Type 0} → Unicode → Candidate Num → Text
unfolding recording_key
candidate_merge_key u c = recording_key u c.recording

with_sources : {Num : Type 0} → Candidate Num → Candidate Num
with_sources c =
    if length c.sources == 0 && not (c.source == "")
    then record c { sources = c.source ∷ [] }
    else c

add_sources : List String → List String → List String
unfolding contains
add_sources known [] = known
add_sources known (s ∷ sources) =
    add_sources (if contains known s then known else known ++ (s ∷ [])) sources

abbrev sources_agree : String
sources_agree = "多个独立来源一致"

-- What happens to the candidate that was there.
raise_score : {Num : Type 0} → Arithmetic Num → Candidate Num → Candidate Num → Candidate Num
raise_score num existing c =
    if num.lt existing.score c.score
    then record existing {
      score = c.score;
      evidence = existing.evidence ++ c.evidence;
      conflicts = existing.conflicts ++ c.conflicts;
    }
    else existing

note_agreement : {Num : Type 0} → Arithmetic Num → Candidate Num → Candidate Num
unfolding contains
note_agreement num e =
    if ltb 1 (length e.sources) && not (contains e.evidence sources_agree)
    then record e {
      evidence = e.evidence ++ (sources_agree ∷ []);
      score = lesser num (num.ratio 1 1) (num.add e.score (num.ratio 5 100));
    }
    else e

merge_into : {Num : Type 0} → Arithmetic Num → Candidate Num → Candidate Num → Candidate Num
unfolding add_sources raise_score note_agreement
merge_into num c existing =
    note_agreement num
      (raise_score num (record existing { sources = add_sources existing.sources c.sources }) c)

-- An entry of the map of indexes, the last written first.
pub record Index : Type 0 where
  pub key : Text
  pub at : ℕ

find_index : Text → List Index → Option ℕ
find_index key [] = none
find_index key (i ∷ is) = let rest = find_index key is in if i.key == key then some i.at else rest

update_at : {A : Type 0} → ℕ → (A → A) → List A → List A
update_at n f [] = []
update_at zero f (x ∷ xs) = f x ∷ xs
update_at (suc n) f (x ∷ xs) = x ∷ update_at n f xs

pub record Merged (Num : Type 0) : Type 0 where
  pub merged : List (Candidate Num)
  pub indexes : List Index

module _ {Num : Type 0} (u : Unicode) (num : Arithmetic Num) where
  append_candidate : Text → Candidate Num → Merged Num → Merged Num
  append_candidate key c m = record {
    merged = m.merged ++ (c ∷ []);
    indexes = record { key = key; at = length m.merged } ∷ m.indexes;
  }

  place : Text → Candidate Num → Option ℕ → Merged Num → Merged Num
  unfolding append_candidate update_at merge_into
  place key c none m = append_candidate key c m
  place key c (some n) m =
      if key == []
      then append_candidate key c m
      else record m { merged = update_at n (merge_into num c) m.merged }

  -- The body of the loop.
  merge_candidate : Candidate Num → Merged Num → Merged Num
  unfolding with_sources candidate_merge_key find_index place
  merge_candidate candidate m =
      let c = with_sources candidate in
      let key = candidate_merge_key u c in place key c (find_index key m.indexes) m

  merge_all : List (Candidate Num) → Merged Num → Merged Num
  unfolding merge_candidate
  merge_all [] m = m
  merge_all (c ∷ cs) m = merge_all cs (merge_candidate c m)

  -- MergeCrossSourceCandidates
  pub merge_cross_source_candidates : List (Candidate Num) → List (Candidate Num)
  unfolding merge_all
  merge_cross_source_candidates cs = (merge_all cs (record { merged = []; indexes = [] })).merged
