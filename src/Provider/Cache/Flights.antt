-- ===== src/Provider/Cache/Flights.antt =====
-- The provider is asked once: not while an answer is fresh, and not while it is being asked.
use wildman_service.Base.{
  ℕ, ◌+◌, ◌<◌, String, ◌≡◌, refl, ◌≢◌, true, false, List, [], ◌∷◌, ◌++◌, arith, eq_iff,
  if◌then◌else◌, lt→ltb, Result, length, delete_where, first_where-append, exists-delete_where,
  int_eq, ◌==◌, nat_eq, string_eq, contains, eq_self, list_eq, ok,
}
use wildman_service.Provider.{RecordingCandidate, ErrorKind}
use wildman_service.Provider.Cache.{
  Cache, CacheEntry, answer, fetch, observe_cache_hit, observe_cache_lookup, is_entry,
  join_or_fetch, consult_entry, begin_search, store_entry, store_result, finish_search,
}

-- What other callers do while a call for `key` is in flight: begin a search for any key, or finish one
-- for another key.
pub data Meanwhile (key : String) : Cache → Cache → Type 0 where
  nothing : {c : Cache} → Meanwhile key c c
  begins :
      {c d : Cache} (k : String) (now : ℕ)
      → Meanwhile key c d
      → Meanwhile key c (begin_search k now d).1
  finishes :
      {c d : Cache} (k : String) (result : Result ErrorKind (List RecordingCandidate)) (now : ℕ)
      → (k == key) ≡ false
      → Meanwhile key c d
      → Meanwhile key c (finish_search k result now d)

contains-append :
    (keys : List String) (k key : String)
    → contains keys key ≡ true
    → contains (keys ++ (k ∷ [])) key ≡ true
unfolding contains
contains-append [] k key h = absurd (ground (arith, h))
contains-append (x ∷ keys) k key h = ground (arith, contains-append keys k key, h)

contains-snoc : (keys : List String) (key : String) → contains (keys ++ (key ∷ [])) key ≡ true
unfolding contains
contains-snoc [] key = ground (arith, eq_self key)
contains-snoc (x ∷ keys) key = ground (arith, contains-snoc keys key)

contains-delete :
    (keys : List String) (k key : String)
    → (k == key) ≡ false
    → contains keys key ≡ true
    → contains (delete_where (λ x. x == k) keys) key ≡ true
unfolding contains delete_where
contains-delete [] k key other h = h
contains-delete (x ∷ keys) k key other h =
    ground
      (arith, contains-delete keys k key other, h, other, eq_iff x k, eq_iff x key, eq_iff k key)

join-contains :
    (k key : String) (c : Cache)
    → contains c.in_flight key ≡ true
    → contains (join_or_fetch k c).1.in_flight key ≡ true
unfolding join_or_fetch
join-contains k key c h = ground (arith, h, contains-append c.in_flight k key)

begin-contains :
    (k key : String) (now : ℕ) (c : Cache)
    → contains c.in_flight key ≡ true
    → contains (begin_search k now c).1.in_flight key ≡ true
unfolding begin_search consult_entry join_or_fetch
begin-contains k key now c h = ground (arith, h, contains-append c.in_flight k key)

Meanwhile-contains :
    (key : String) (c d : Cache)
    → Meanwhile key c d
    → contains c.in_flight key ≡ true
    → contains d.in_flight key ≡ true
unfolding finish_search
Meanwhile-contains key c _ nothing h = h
Meanwhile-contains key c _ (begins {d = d} k now m) h =
    begin-contains k key now d (Meanwhile-contains key c d m h)
Meanwhile-contains key c _ (finishes {d = d} k result now other m) h =
    contains-delete d.in_flight k key other (Meanwhile-contains key c d m h)

flying :
    (key : String) (now : ℕ) (c : Cache)
    → contains c.in_flight key ≡ true
    → (begin_search key now c).0 ≢ fetch
unfolding begin_search consult_entry join_or_fetch
flying key now c h k = absurd (ground (arith, h, k))

fetch-contains :
    (key : String) (now : ℕ) (c : Cache)
    → (begin_search key now c).0 ≡ fetch
    → contains (begin_search key now c).1.in_flight key ≡ true
unfolding begin_search consult_entry join_or_fetch
fetch-contains key now c h = ground (arith, h, contains-snoc c.in_flight key)

-- A caller that has to ask the provider is alone: whatever other callers do until it has its answer,
-- none of them has to ask for the same key.
pub begin_search-alone :
    (key : String) (now later : ℕ) (c d : Cache)
    → (begin_search key now c).0 ≡ fetch
    → Meanwhile key (begin_search key now c).1 d
    → (begin_search key later d).0 ≢ fetch
begin_search-alone key now later c d h m =
    flying key later d
      (Meanwhile-contains key (begin_search key now c).1 d m (fetch-contains key now c h))

-- After an answer of the provider, the next search for its key gets that answer, without a request
-- to the provider, if it begins before the entry expires: after the negative time to live for an
-- empty answer, after the positive one for another.
pub begin_search-fresh :
    (key : String) (found : List RecordingCandidate) (now later : ℕ) (c : Cache)
    → later < now + (if length found == 0 then c.negative_ttl else c.positive_ttl)
    → let r = begin_search key later (finish_search key (ok found) now c) in
      (r.0 ≡ answer found)
      × (r.1.metrics.provider_requests
          ≡ (finish_search key (ok found) now c).metrics.provider_requests)
unfolding begin_search consult_entry finish_search store_result store_entry is_entry
    observe_cache_hit observe_cache_lookup
begin_search-fresh key found now later c h =
    let e : CacheEntry = record {
      key = key;
      candidates = found;
      expires_at = now + (if length found == 0 then c.negative_ttl else c.positive_ttl);
      negative = length found == 0;
    } in
    let hit =
      first_where-append (is_entry key) (delete_where (is_entry key) c.entries) e
        (exists-delete_where (is_entry key) c.entries) (eq_self key) in
    rw (hit, lt→ltb later e.expires_at h) (refl, refl)
