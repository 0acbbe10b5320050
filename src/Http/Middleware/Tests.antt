-- ===== src/Http/Middleware/Tests.antt =====
-- A client that calls, with and without a call left, and the theorems at it.
use wildman_service.Base.{
  ℕ, String, ◌≡◌, refl, ap, some, [], ◌∷◌, ◌++◌, arith, no_faults, int_eq, string_eq, nat_eq,
  list_beq, list_eq, Text, codes, any_code,
}
use wildman_service.Base64.{encode}
use wildman_service.Client.{Installation}
use wildman_service.Client.Token.Laws.{token_of}
use wildman_service.Client.Service.Authentication.{IsAdmitted}
use wildman_service.Client.Service.Tests as Client
use wildman_service.Unicode.{ascii}
use wildman_service.Limiter.Bound.{allow_client-first}
use wildman_service.Limiter.Tests as Limiter
use wildman_service.Limiter.Waits.{after_clients}
use wildman_service.Limiter.Refines.{Calls}
use wildman_service.Http.{Request, Response, reply, Server, header_values}
use wildman_service.Http.Guards.{request_bearer_token, bearer_token, cut, is_blank}
use wildman_service.Http.Middleware.{authenticate_client, retry_after_seconds}
use wildman_service.Http.Middleware.Gate.{authenticate_client_sound, authenticate_client-passes}
use wildman_service.Http.Middleware.Waits.{retry_after_seconds-lets_in}
use wildman_service.Http.Tests.{request_with, server_with, echo}

abbrev token : Text
token = token_of Client.prefix_random Client.secret_random

abbrev call : Request
call = request_with (("Authorization", codes "Bearer " ++ token) ∷ [])

shown : request_bearer_token ascii.lower call ≡ some token
unfolding request_bearer_token bearer_token header_values cut is_blank any_code list_beq encode
shown = refl

let_through :
    (authenticate_client ascii.lower Client.hash Client.before_text no_faults 9 9 call echo
      (server_with Client.with_nas)).0
    ≡ reply 200 (Client.admitted_nas 9).id []
let_through =
    ap (λ (a : Response String × Server ℕ). a.0)
      (authenticate_client-passes ascii.lower Client.hash Client.before_text no_faults 9 9 echo call
        (server_with Client.with_nas) token (Client.admitted_nas 9) shown (Client.let_in 9)
        (allow_client-first (Client.admitted_nas 9).id 9 9 0))

authenticate_client_sound_example : (row i : Installation) × IsAdmitted 9 row i
authenticate_client_sound_example =
    let found =
      authenticate_client_sound ascii.lower Client.hash Client.before_text no_faults 9 9 echo call
        (server_with Client.with_nas) 200 (Client.admitted_nas 9).id [] let_through in
    (found.2, found.3, found.7)

abbrev busy : Server ℕ
busy = record (server_with Client.with_nas) { client_limiter = Limiter.used_up }

abbrev others : Calls
others = ("c2", 20) ∷ []

-- The server at the second call: its database as before, its limiter after the first call and another.
abbrev afterwards : Server ℕ
afterwards = record busy {
  client_limiter =
      after_clients others
        (authenticate_client ascii.lower Client.hash Client.before_text no_faults 10 15 call echo
          busy).1.client_limiter;
}

retry_after_seconds-lets_in_example :
    (authenticate_client ascii.lower Client.hash Client.before_text no_faults 1_000_000_015
      1_000_000_015 call echo afterwards).0
    ≡ reply 200 "c1" []
unfolding retry_after_seconds
retry_after_seconds-lets_in_example =
    ap (λ (a : Response String × Server ℕ). a.0)
      ((retry_after_seconds-lets_in ascii.lower Client.hash Client.before_text echo no_faults
        no_faults 10 15 45 1_000_000_015 1_000_000_015 call call busy afterwards token token
        (Client.admitted_nas 10) (Client.admitted_nas 1_000_000_015) others Limiter.used_up-HasOnce
        shown (Client.let_in 10) (ap (λ x. x.0) Limiter.allow_client_waits) (omega arith)
        (omega arith) refl (omega arith) (omega arith) refl shown (Client.let_in 1_000_000_015)
        refl).2)
