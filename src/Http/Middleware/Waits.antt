-- ===== src/Http/Middleware/Waits.antt =====
-- How long a client has to wait that is refused by the rate limiter: internal/httpserver/client_auth.go.
use wildman_service.Base.{
  ℕ, ◌+◌, ◌*◌, ◌≤◌, String, ◌≡◌, refl, ap, ◌∙◌, Bool, true, false, some, [], ◌∷◌, arith, Faults,
  int_eq, string_eq, nat_eq, list_eq, Text, ok,
}
use wildman_service.Time.{second}
use wildman_service.Client.{Installation}
use wildman_service.Client.Service.{authenticate}
use wildman_service.Limiter.{allow_client}
use wildman_service.Limiter.Window.{Ordered, Until}
use wildman_service.Limiter.Keys.{HasOnce}
use wildman_service.Limiter.Refines.{Calls, times, times_of}
use wildman_service.Limiter.Waits.{after_clients, allow_client-waits}
use wildman_service.Http.{Request, refuse, retry_after, Server, Handler}
use wildman_service.Http.Guards.{request_bearer_token}
use wildman_service.Http.Middleware.{
  retry_after_seconds, after_limiter, admit_installation, with_token, authenticate_client,
}
use wildman_service.Http.Middleware.Gate.{authenticate_client-passes}

-- Rounding to whole seconds shortens no wait.
retry_after_seconds-enough : (wait : ℕ) → wait ≤ retry_after_seconds wait * second
unfolding retry_after_seconds
retry_after_seconds-enough wait = ground arith

module _ {Num A : Type 0} (fold : ℕ → ℕ) (sha256_base64 : Text → String) (text_lt : ℕ → ℕ → Bool)
    (next : String → Handler Num A) where
  limited :
      (faults : Faults) (now later wait : ℕ) (r : Request) (s : Server Num) (token : Text)
      (i : Installation)
      → request_bearer_token fold r ≡ some token
      → (authenticate sha256_base64 text_lt faults now token s.db).0 ≡ ok i
      → (allow_client i.id now later s.client_limiter).0 ≡ (false, wait)
      → let answer = authenticate_client fold sha256_base64 text_lt faults now later r next s in
        (answer.0 ≡ refuse 429 "CLIENT_RATE_LIMITED" (retry_after (retry_after_seconds wait) ∷ []))
        × (answer.1.client_limiter ≡ (allow_client i.id now later s.client_limiter).1)
  unfolding authenticate_client with_token admit_installation after_limiter
  limited faults now later wait r s token i shown who refusal =
      rw (shown, with_token, who, refusal) (refl, refl)

  -- A client that is authenticated and refused by the rate limiter is told in Retry-After to wait for
  -- at least one second. If it waits so long, counted from the refusal, and shows a token of the same
  -- installation again, it reaches the handler, whatever calls of other installations the limiter
  -- had in between, in the order of their instants, and whatever else has changed. The limiter's map
  -- has each key once, and its clock does not go back within the refusal.
  pub retry_after_seconds-lets_in :
      (faults faults' : Faults) (now later wait t t' : ℕ) (r r' : Request) (s s' : Server Num)
      (token token' : Text) (i i' : Installation) (others : Calls)
      → HasOnce s.client_limiter.entries
      → request_bearer_token fold r ≡ some token
      → (authenticate sha256_base64 text_lt faults now token s.db).0 ≡ ok i
      → (allow_client i.id now later s.client_limiter).0 ≡ (false, wait)
      → Ordered now (times others)
      → Until (1 + t) (times others)
      → times_of i.id others ≡ []
      → now ≤ later
      → later + retry_after_seconds wait * second ≤ t
      → let refusal = authenticate_client fold sha256_base64 text_lt faults now later r next s in
        s'.client_limiter ≡ after_clients others refusal.1.client_limiter
        → request_bearer_token fold r' ≡ some token'
        → (authenticate sha256_base64 text_lt faults' t token' s'.db).0 ≡ ok i'
        → i'.id ≡ i.id
        → (refusal.0
            ≡ refuse 429 "CLIENT_RATE_LIMITED" (retry_after (retry_after_seconds wait) ∷ []))
          × (1 ≤ retry_after_seconds wait)
          × (authenticate_client fold sha256_base64 text_lt faults' t t' r' next s'
              ≡ next i'.id (record s' {
                db = (authenticate sha256_base64 text_lt faults' t token' s'.db).1;
                client_limiter = (allow_client i'.id t t' s'.client_limiter).1;
              }))
  unfolding retry_after_seconds
  retry_after_seconds-lets_in faults faults' now later wait t t' r r' s s' token token' i i' others
        once shown who refusal o u apart clock waited same shown' who' again =
      let (answer, left) = limited faults now later wait r s token i shown who refusal in
      let limiter = same ∙ ap (after_clients others) left in
      let admitted : (allow_client i'.id t t' s'.client_limiter).0.0 ≡ true =
        rw (limiter, again)
          (ap (λ (x : Bool × ℕ). x.0)
            (allow_client-waits i.id now later wait t t' s.client_limiter others once o u apart
              (omega arith) (omega (arith, retry_after_seconds-enough wait)) refusal)) in
      (
        answer,
        ground arith,
        authenticate_client-passes fold sha256_base64 text_lt faults' t t' next r' s' token' i'
            shown' who' admitted,
      )
