-- ===== src/Http/Middleware/Gate.antt =====
-- Who reaches a handler of the API for clients.
use wildman_service.Base.{
  ℕ, String, ◌≡◌, refl, inl, inr, Bool, true, false, some, List, arith, Option-cases, Result,
  Faults, first_where, int_eq, string_eq, nat_eq, list_eq, Text, ok, err,
}
use wildman_service.Client.{Installation}
use wildman_service.Client.Token.Laws.{IsIssued}
use wildman_service.Client.Store.{has_token}
use wildman_service.Client.Service.{Error, authenticate}
use wildman_service.Client.Service.Authentication.{IsAdmitted, authenticate_token_sound}
use wildman_service.Limiter.{allow_client}
use wildman_service.Http.{Request, reply, Header, Server, Handler}
use wildman_service.Http.Guards.{request_bearer_token}
use wildman_service.Http.Middleware.{
  after_limiter, admit_installation, with_token, authenticate_client,
}

module _ {Num A : Type 0} (now later : ℕ) (next : String → Handler Num A) where
  abbrev passed : Installation → Server Num → Server Num
  passed i s = record s { client_limiter = (allow_client i.id now later s.client_limiter).1 }

  after_limiter-reply :
      (id : String) (answer : Bool × ℕ) (s : Server Num) (st : ℕ) (a : A) (hs : List Header)
      → (after_limiter next id answer s).0 ≡ reply st a hs
      → (answer.0 ≡ true) × (after_limiter next id answer s ≡ next id s)
  unfolding after_limiter
  after_limiter-reply id (true, wait) s st a hs h = (refl, refl)
  after_limiter-reply id (false, wait) s st a hs h = absurd (ground (arith, h))

  admit_installation-reply :
      (r : Result Error Installation) (s : Server Num) (st : ℕ) (a : A) (hs : List Header)
      → (admit_installation now later next r s).0 ≡ reply st a hs
      → (i : Installation) × (r ≡ ok i)
        × ((allow_client i.id now later s.client_limiter).0.0 ≡ true)
        × (admit_installation now later next r s ≡ next i.id (passed i s))
  unfolding admit_installation
  admit_installation-reply (ok i) s st a hs h =
      let (within, e) =
        after_limiter-reply i.id (allow_client i.id now later s.client_limiter).0 (passed i s) st a
          hs h in
      (i, refl, within, e)
  admit_installation-reply (err x) s st a hs h = absurd (ground (arith, h))

module _ {Num A : Type 0} (fold : ℕ → ℕ) (sha256_base64 : Text → String) (text_lt : ℕ → ℕ → Bool)
    (faults : Faults) (now later : ℕ) (next : String → Handler Num A) where
  -- A request that is answered with data by a handler behind the middleware showed, in its one Authorization
  -- header, a well-formed token whose prefix and hash are those of an active installation in the table; the
  -- rate limiter admitted a call of that installation; and the handler was called with its id, once, on the
  -- state that the authentication and the limiter left.
  pub authenticate_client_sound :
      (r : Request) (s : Server Num) (st : ℕ) (a : A) (hs : List Header)
      → let answer = authenticate_client fold sha256_base64 text_lt faults now later r next s in
        answer.0 ≡ reply st a hs
        → (token prefix : Text) × (row i : Installation) × (request_bearer_token fold r
            ≡ some token)
          × IsIssued token prefix
          × (first_where (has_token prefix (sha256_base64 token)) s.db.clients ≡ some row)
          × IsAdmitted now row i
          × ((allow_client i.id now later s.client_limiter).0.0 ≡ true)
          × (answer
              ≡ next i.id (record s {
                db = (authenticate sha256_base64 text_lt faults now token s.db).1;
                client_limiter = (allow_client i.id now later s.client_limiter).1;
              }))
  unfolding authenticate_client with_token
  authenticate_client_sound r s st a hs h = elim (Option-cases (request_bearer_token fold r)) [
    | inl absent ↦ absurd (ground (arith, rw absent at h))
    | inr (token, shown) ↦
        let op = authenticate sha256_base64 text_lt faults now token s.db in
        let (i, who, admitted, e) =
          admit_installation-reply now later next op.0 (record s { db = op.1 }) st a hs
            (rw shown at h) in
        let (prefix, row, issued, found, _, active) =
          authenticate_token_sound sha256_base64 text_lt faults now token s.db i who in
        (token, prefix, row, i, shown, issued, found, active, admitted, rw shown e)
  ]

  -- A client that shows the token of an installation, and that the limiter admits, reaches the handler.
  pub authenticate_client-passes :
      (r : Request) (s : Server Num) (token : Text) (i : Installation)
      → request_bearer_token fold r ≡ some token
      → (authenticate sha256_base64 text_lt faults now token s.db).0 ≡ ok i
      → (allow_client i.id now later s.client_limiter).0.0 ≡ true
      → authenticate_client fold sha256_base64 text_lt faults now later r next s
        ≡ next i.id (record s {
          db = (authenticate sha256_base64 text_lt faults now token s.db).1;
          client_limiter = (allow_client i.id now later s.client_limiter).1;
        })
  unfolding authenticate_client with_token admit_installation after_limiter
  authenticate_client-passes r s token i shown who admitted =
      rw (shown, with_token, who) (passes (allow_client i.id now later s.client_limiter).0 admitted)
    where
      passes :
          (answer : Bool × ℕ)
          → answer.0 ≡ true
          → after_limiter next i.id answer (record s {
            db = (authenticate sha256_base64 text_lt faults now token s.db).1;
            client_limiter = (allow_client i.id now later s.client_limiter).1;
          })
            ≡ next i.id (record s {
              db = (authenticate sha256_base64 text_lt faults now token s.db).1;
              client_limiter = (allow_client i.id now later s.client_limiter).1;
            })
      passes (true, wait) h = refl
      passes (false, wait) h = cc
