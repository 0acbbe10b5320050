-- ===== src/Provider/Tests.antt =====
-- One search and one recorded payload, and the theorems at them.
use wildman_service.Base.{
  ℕ, String, ◌≡◌, refl, ◌≢◌, true, false, some, List, [], ◌∷◌, first_where, exists_where, int_eq,
  nat_eq, string_eq, list_beq, contains, list_eq, trim_space, ok,
}
use wildman_service.Catalog.{SourceObservation}
use wildman_service.Catalog
use wildman_service.Provider.Sources.{
  record_source, new_source, create_source_observation, same_source,
}
use wildman_service.Provider.Cache.{
  Cache, fetch, new_cache, begin_search, consult_entry, join_or_fetch,
}
use wildman_service.Provider.Cache.Flights.{nothing, begins, begin_search-alone}
use wildman_service.Database.{empty}

abbrev hash : List ℕ → String
hash payload = "h"

abbrev seen : SourceObservation
seen = record {
  id = "s1";
  provider = "m";
  entity_type = Catalog.recording;
  external_id = "e";
  canonical_entity_id = "c";
  payload_json = 123 ∷ 125 ∷ [];
  payload_hash = "h";
  fetched_at = 5;
  expires_at = some 105;
  adapter_version = "1";
}

recorded :
    (record_source {Num = ℕ} false
      (λ _. true)
      hash
      "m"
      "1"
      Catalog.recording
      "e"
      "c"
      (123 ∷ 125 ∷ [])
      100
      "s1"
      5
      empty).0
    ≡ ok (seen, true)
unfolding record_source new_source create_source_observation same_source exists_where first_where
    trim_space list_beq
recorded = refl

abbrev cold : Cache
cold = new_cache 10 5

asks : (begin_search "q" 1 cold).0 ≡ fetch
unfolding begin_search consult_entry join_or_fetch new_cache first_where contains
asks = refl

begin_search-alone_example :
    (begin_search "q" 3 (begin_search "q" 2 (begin_search "q" 1 cold).1).1).0 ≢ fetch
begin_search-alone_example =
    begin_search-alone "q" 1 3 cold (begin_search "q" 2 (begin_search "q" 1 cold).1).1 asks
      (begins "q" 2 nothing)
