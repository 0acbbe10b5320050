-- ===== src/Provider/Cache.antt =====
-- The cache of provider searches: internal/app/provider/cache.go and metrics.go. A search runs in two
-- critical sections, under the mutex: one when it begins, and for the caller that asks the provider
-- one when the answer is there. Keys are digests of queries.
pub mod Flights
use wildman_service.Base.{
  ℕ, ◌+◌, ◌*◌, String, Bool, not, Option, none, some, List, [], ◌∷◌, ◌++◌, ltb, if◌then◌else◌,
  Result, ◌>>=◌, ◌>>◌, call, length, first_where, delete_where, int_eq, ◌==◌, nat_eq, string_eq,
  contains, list_eq, ok, err,
}
use wildman_service.Time.{hour, day}
use wildman_service.Provider.{RecordingCandidate, ErrorKind}

pub record CacheEntry : Type 0 where
  pub key : String
  pub candidates : List RecordingCandidate
  pub expires_at : ℕ
  pub negative : Bool

-- MetricsSnapshot; the errors are those counted, oldest first. The counters do not reach 2^64.
pub record Metrics : Type 0 where
  pub cache_lookups : ℕ
  pub cache_hits : ℕ
  pub negative_hits : ℕ
  pub coalesced_requests : ℕ
  pub provider_requests : ℕ
  pub errors : List ErrorKind

pub record Cache : Type 0 where
  pub positive_ttl : ℕ
  pub negative_ttl : ℕ
  pub entries : List CacheEntry
  pub in_flight : List String
  pub metrics : Metrics

-- What a caller does after the first critical section: it has its answer, waits for the call of
-- another one, or asks the provider.
pub data Turn : Type 0 where
  answer : List RecordingCandidate → Turn
  wait : Turn
  fetch : Turn

observe_cache_lookup : Metrics → Metrics
observe_cache_lookup m = record m { cache_lookups = m.cache_lookups + 1 }

observe_cache_hit : Bool → Metrics → Metrics
observe_cache_hit negative m = record m {
  cache_hits = m.cache_hits + 1;
  negative_hits = if negative then m.negative_hits + 1 else m.negative_hits;
}

observe_coalesced : Metrics → Metrics
observe_coalesced m = record m { coalesced_requests = m.coalesced_requests + 1 }

observe_provider_request : Option ErrorKind → Metrics → Metrics
observe_provider_request none m = record m { provider_requests = m.provider_requests + 1 }
observe_provider_request (some kind) m = record m {
  provider_requests = m.provider_requests + 1;
  errors = m.errors ++ (kind ∷ []);
}

is_entry : String → CacheEntry → Bool
is_entry key e = e.key == key

-- The code after the entries were asked.
unfoldable pub join_or_fetch : String → Cache → Turn × Cache
unfolding observe_coalesced
join_or_fetch key c =
    if contains c.in_flight key
    then (wait, record c { metrics = observe_coalesced c.metrics })
    else (fetch, record c { in_flight = c.in_flight ++ (key ∷ []) })

unfoldable pub consult_entry : String → ℕ → Option CacheEntry → Cache → Turn × Cache
unfolding join_or_fetch observe_cache_hit is_entry
consult_entry key now none c = join_or_fetch key c
consult_entry key now (some e) c =
    if ltb now e.expires_at
    then (answer e.candidates, record c { metrics = observe_cache_hit e.negative c.metrics })
    else join_or_fetch key (record c { entries = delete_where (is_entry key) c.entries })

-- SearchRecordings, to the end of its first critical section.
unfoldable pub begin_search : String → ℕ → Cache → Turn × Cache
unfolding observe_cache_lookup consult_entry is_entry
begin_search key now c =
    let looked = record c { metrics = observe_cache_lookup c.metrics } in
    consult_entry key now (first_where (is_entry key) looked.entries) looked

-- An entry that is written replaces that of its key.
store_entry : CacheEntry → List CacheEntry → List CacheEntry
unfolding is_entry
store_entry e entries = delete_where (is_entry e.key) entries ++ (e ∷ [])

error_of : {E A : Type 0} → Result E A → Option E
error_of (ok a) = none
error_of (err e) = some e

store_result : String → Result ErrorKind (List RecordingCandidate) → ℕ → Cache → List CacheEntry
unfolding store_entry
store_result key (err e) now c = c.entries
store_result key (ok found) now c =
    store_entry
      (record {
        key = key;
        candidates = found;
        expires_at = now + (if length found == 0 then c.negative_ttl else c.positive_ttl);
        negative = length found == 0;
      })
      c.entries

-- SearchRecordings, from the answer of the provider on.
pub finish_search : String → Result ErrorKind (List RecordingCandidate) → ℕ → Cache → Cache
unfolding store_result observe_provider_request error_of
finish_search key result now c = record c {
  entries = store_result key result now c;
  in_flight = delete_where (λ k. k == key) c.in_flight;
  metrics = observe_provider_request (error_of result) c.metrics;
}

-- NewCachedProvider
unfoldable pub new_cache : ℕ → ℕ → Cache
new_cache positive_ttl negative_ttl = record {
  positive_ttl = if positive_ttl == 0 then 7 * day else positive_ttl;
  negative_ttl = if negative_ttl == 0 then 6 * hour else negative_ttl;
  entries = [];
  in_flight = [];
  metrics = record {
    cache_lookups = 0;
    cache_hits = 0;
    negative_hits = 0;
    coalesced_requests = 0;
    provider_requests = 0;
    errors = [];
  };
}
