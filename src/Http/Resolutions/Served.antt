-- ===== src/Http/Resolutions/Served.antt =====
-- What the reply to a POST of a resolution says of the database.
use wildman_service.Base.{
  ℕ, String, ◌≡◌, refl, sym, ap, subst, ◌∙◌, inl, inr, Bool, true, Option, none, some, List, arith,
  Bool-cases, Result, Result-cases, Faults, int_eq, string_eq, nat_eq, ◌==◌, list_eq, Text, ok, err,
}
use wildman_service.Catalog.{TrackObservation, StoredTrackObservation, ResolutionRequest}
use wildman_service.Account.Support.{Environment}
use wildman_service.Account.Quota.{consume_resolution_quota}
use wildman_service.Account.Quota.Repeat.{clients_kept}
use wildman_service.Account.Service.Charges.{consume_quota-ok}
use wildman_service.Resolution.Service.Frames.{create_request-frame}
use wildman_service.Account.Service.{consume_quota}
use wildman_service.Resolution.Service.{Error, create_request, upsert_observation}
use wildman_service.Database.{Database}
use wildman_service.Http.{Request, Response, reply, Header, Server, Handler}
use wildman_service.Http.Guards.{request_idempotency_key, request_is_json}
use wildman_service.Http.Resolutions.{
  Context, CreatedResponse, after_creation, create_for, after_charge, charge_for, after_observation,
  with_body, with_key, post_resolution,
}

-- The key of a client has been served with a request: the database has what a consumption of the quota and
-- a creation have left.
pub record IsServed {Num : Type 0} (client_id key request_id : String) (db : Database Num)
    : Type 0 where
  pub charged_in : Database Num
  pub period : String
  pub charged_at : ℕ
  pub charged : (consume_resolution_quota client_id key period charged_at charged_in).0 ≡ ok true
  pub same_clients : db.clients ≡ charged_in.clients
  pub same_consumptions :
      db.consumptions
      ≡ (consume_resolution_quota client_id key period charged_at charged_in).1.consumptions
  pub created_in : Database Num
  pub creating : Faults
  pub observation_id : String
  pub drawn_id : String
  pub created_at : ℕ
  pub request : ResolutionRequest
  pub fresh : Bool
  pub created :
      (create_request creating client_id observation_id key drawn_id created_at created_in).0
      ≡ ok (request, fresh)
  pub same_requests :
      db.requests
      ≡ (create_request creating client_id observation_id key drawn_id created_at
          created_in).1.requests
  pub same_id : request.id ≡ request_id

module _ {Num : Type 0} (c : Context) where
  -- What a call of the last service shows, where the response is a reply.
  pub create_for-reply :
      (client_id observation_id key : String) (s : Server Num) (st : ℕ) (v : CreatedResponse)
      (hs : List Header)
      → (create_for c client_id observation_id key s).0 ≡ reply st v hs
      → (r : ResolutionRequest) × (b : Bool) × ((create_request c.creating client_id observation_id
            key c.request_id c.now s.db).0
          ≡ ok (r, b))
        × (v.request_id ≡ r.id)
  unfolding create_for after_creation
  create_for-reply client_id observation_id key s st v hs h =
      elim (Result-cases
        (create_request c.creating client_id observation_id key c.request_id c.now s.db).0) [
          | inl ((r, b), e) ↦ (r, b, e, ground (arith, rw (create_for, e) at h))
          | inr (e, bad) ↦ absurd (ground (arith, rw (create_for, bad) at h))
        ]

  pub db_of_creation :
      (client_id observation_id key : String) (s : Server Num)
      → (create_for c client_id observation_id key s).1.db
        ≡ (create_request c.creating client_id observation_id key c.request_id c.now s.db).1
  unfolding create_for after_creation
  db_of_creation client_id observation_id key s =
      elim (Result-cases
        (create_request c.creating client_id observation_id key c.request_id c.now s.db).0) [
          | inl (a, e) ↦ rw (create_for, e) refl
          | inr (e, bad) ↦ rw (create_for, bad) refl
        ]

  -- The first call, from its reply.
  charge_for-reply :
      (env : Environment) (client_id key : String) (next : Handler Num CreatedResponse)
      (s : Server Num) (st : ℕ) (v : CreatedResponse) (hs : List Header)
      → (charge_for c (some env) client_id key next s).0 ≡ reply st v hs
      → ((consume_quota env c.charging client_id key c.now s.db).0 ≡ ok tt)
        × (charge_for c (some env) client_id key next s
            ≡ next (record s { db = (consume_quota env c.charging client_id key c.now s.db).1 }))
  unfolding charge_for after_charge
  charge_for-reply env client_id key next s st v hs h =
      elim (Result-cases (consume_quota env c.charging client_id key c.now s.db).0) [
        | inl (_, e) ↦ (e, rw (charge_for, e) refl)
        | inr (x, bad) ↦ absurd (ground (arith, rw (charge_for, bad) at h))
      ]

  create_for-serves :
      (env : Environment) (client_id observation_id key : String) (s : Server Num) (st : ℕ)
      (v : CreatedResponse) (hs : List Header)
      → let op = consume_quota env c.charging client_id key c.now s.db in
        op.0 ≡ ok tt
        → (create_for c client_id observation_id key (record s { db = op.1 })).0 ≡ reply st v hs
        → IsServed client_id key v.request_id
            (create_for c client_id observation_id key (record s { db = op.1 })).1.db
  create_for-serves env client_id observation_id key s st v hs paid h =
      let op = consume_quota env c.charging client_id key c.now s.db in
      let s' : Server Num = record s { db = op.1 } in
      let (charged, same) = consume_quota-ok env c.charging client_id key c.now s.db paid in
      let (r, b, created, named) = create_for-reply client_id observation_id key s' st v hs h in
      let after = db_of_creation client_id observation_id key s' in
      let (clients, consumptions, _) =
        create_request-frame c.creating client_id c.now op.1 observation_id key c.request_id in
      record {
        charged_in = s.db;
        period = env.month_of c.now;
        charged_at = c.now;
        charged = charged;
        same_clients =
            ap (λ (d : Database Num). d.clients) after
            ∙ (clients
                ∙ (ap (λ (d : Database Num). d.clients) same
                    ∙ clients_kept client_id key (env.month_of c.now) c.now s.db));
        same_consumptions =
            ap (λ (d : Database Num). d.consumptions) after
            ∙ (consumptions ∙ ap (λ (d : Database Num). d.consumptions) same);
        created_in = op.1;
        creating = c.creating;
        observation_id = observation_id;
        drawn_id = c.request_id;
        created_at = c.now;
        request = r;
        fresh = b;
        created = created;
        same_requests = ap (λ (d : Database Num). d.requests) after;
        same_id = sym named;
      }

  charge_for-serves :
      (env : Environment) (client_id observation_id key : String) (s : Server Num) (st : ℕ)
      (v : CreatedResponse) (hs : List Header)
      → (charge_for c (some env) client_id key (create_for c client_id observation_id key) s).0
        ≡ reply st v hs
      → IsServed client_id key v.request_id
          (charge_for c (some env) client_id key (create_for c client_id observation_id key) s).1.db
  charge_for-serves env client_id observation_id key s st v hs h =
      let (paid, e) =
        charge_for-reply env client_id key (create_for c client_id observation_id key) s st v hs
          h in
      subst
        (λ (a : Response CreatedResponse × Server Num). IsServed client_id key v.request_id a.1.db)
        (sym e)
        (create_for-serves env client_id observation_id key s st v hs paid
          (ap (λ (a : Response CreatedResponse × Server Num). a.0) (sym e) ∙ h))

  after_observation-serves :
      (env : Environment) (client_id key : String) (o : Result Error StoredTrackObservation)
      (s : Server Num) (st : ℕ) (v : CreatedResponse) (hs : List Header)
      → c.accounts ≡ some env
      → (after_observation c client_id key o s).0 ≡ reply st v hs
      → IsServed client_id key v.request_id (after_observation c client_id key o s).1.db
  unfolding after_observation
  after_observation-serves env client_id key (ok o) s st v hs e h =
      rw e (charge_for-serves env client_id o.id key s st v hs (rw e at h))
  after_observation-serves env client_id key (err x) s st v hs e h = absurd (ground (arith, h))

  with_body-serves :
      (env : Environment) (client_id key : String) (body : Option TrackObservation) (s : Server Num)
      (st : ℕ) (v : CreatedResponse) (hs : List Header)
      → c.accounts ≡ some env
      → (with_body c client_id key body s).0 ≡ reply st v hs
      → IsServed client_id key v.request_id (with_body c client_id key body s).1.db
  unfolding with_body
  with_body-serves env client_id key none s st v hs e h = absurd (ground (arith, h))
  with_body-serves env client_id key (some input) s st v hs e h =
      let op =
        upsert_observation c.observing c.valid c.observation_hash client_id input c.observation_id
          c.now s.db in
      after_observation-serves env client_id key op.0 (record s { db = op.1 }) st v hs e h

  pub post_resolution-serves :
      (env : Environment) (client_id : String) (r : Request) (body : Option TrackObservation)
      (s : Server Num) (st : ℕ) (v : CreatedResponse) (hs : List Header)
      → c.accounts ≡ some env
      → (post_resolution c client_id r body s).0 ≡ reply st v hs
      → (text : Text) × (request_idempotency_key r ≡ ok text)
        × IsServed client_id (c.spell text) v.request_id (post_resolution c client_id r body s).1.db
  unfolding post_resolution with_key
  post_resolution-serves env client_id r body s st v hs e h = elim (Bool-cases (client_id == "")) [
    | inl absent ↦ absurd (ground (arith, rw absent at h))
    | inr present ↦ elim (Bool-cases (request_is_json c.fold c.parse_media_type r)) [
      | inr other ↦ absurd (ground (arith, rw (present, other) at h))
      | inl json ↦ elim (Result-cases (request_idempotency_key r)) [
        | inr (x, bad) ↦ absurd (ground (arith, rw (present, json, bad) at h))
        | inl (text, k) ↦ (
          text,
          k,
          rw (present, json, k)
              (with_body-serves env client_id (c.spell text) body s st v hs e
                (rw (present, json, k) at h)),
        )
      ]
    ]
  ]
