-- ===== src/Http/Middleware.antt =====
-- The authentication of clients: internal/httpserver/client_auth.go. `retry` is what
-- clientRateLimiter.Allow reads of the clock for the wait.
pub mod Gate
pub mod Waits
pub mod Tests
use wildman_service.Base.{
  ℕ, ◌+◌, ◌-◌, ◌/◌, max, String, Bool, true, false, Option, none, some, [], ◌∷◌, Result, Faults,
  int_eq, string_eq, nat_eq, list_eq, Text, ok, err,
}
use wildman_service.Time.{second}
use wildman_service.Client.{Installation}
use wildman_service.Client.Service.{
  Error, authentication_required, installation_revoked, authenticate,
}
use wildman_service.Limiter.{Limiter, allow_client}
use wildman_service.Http.{
  Request, Response, reply, refuse, Header, retry_after, www_authenticate, Server, Handler,
  write_internal_api_error, on_database,
}
use wildman_service.Http.Guards.{request_bearer_token}

-- The wait in whole seconds, at least one.
unfoldable pub retry_after_seconds : ℕ → ℕ
retry_after_seconds wait = max 1 ((wait + second - 1) / second)

module _ {Num A : Type 0} where
  -- writeClientAuthenticationError
  abbrev pub write_client_authentication_error : String → Handler Num A
  write_client_authentication_error code s = (refuse 401 code (www_authenticate "Bearer" ∷ []), s)

  after_limiter : (String → Handler Num A) → String → Bool × ℕ → Handler Num A
  unfolding retry_after_seconds
  after_limiter next id (true, wait) = next id
  after_limiter next id (false, wait) =
      λ s. (refuse 429 "CLIENT_RATE_LIMITED" (retry_after (retry_after_seconds wait) ∷ []), s)

  -- The switch on the result of the service.
  unfoldable pub admit_installation :
      ℕ → ℕ → (String → Handler Num A) → Result Error Installation → Handler Num A
  unfolding after_limiter
  admit_installation now later next (ok i) = λ s.
      let (answer, limiter) = allow_client i.id now later s.client_limiter in
      after_limiter next i.id answer (record s { client_limiter = limiter })
  admit_installation now later next (err authentication_required) =
      write_client_authentication_error "CLIENT_AUTH_REQUIRED"
  admit_installation now later next (err installation_revoked) =
      write_client_authentication_error "CLIENT_REVOKED"
  admit_installation now later next (err _) = write_internal_api_error

  with_token :
      (Text → String)
      → (ℕ → ℕ → Bool)
      → Faults
      → ℕ
      → ℕ
      → (String → Handler Num A)
      → Option Text
      → Handler Num A
  unfolding admit_installation
  with_token sha256_base64 text_lt faults now later next none =
      write_client_authentication_error "CLIENT_AUTH_REQUIRED"
  with_token sha256_base64 text_lt faults now later next (some token) =
      on_database (authenticate sha256_base64 text_lt faults now token)
        (admit_installation now later next)

  -- clientMiddleware.Authenticate: `next` has the id of the installation in its context.
  unfoldable pub authenticate_client :
      (ℕ → ℕ)
      → (Text → String)
      → (ℕ → ℕ → Bool)
      → Faults
      → ℕ
      → ℕ
      → Request
      → (String → Handler Num A)
      → Handler Num A
  unfolding with_token request_bearer_token
  authenticate_client fold sha256_base64 text_lt faults now later r next =
      with_token sha256_base64 text_lt faults now later next (request_bearer_token fold r)
