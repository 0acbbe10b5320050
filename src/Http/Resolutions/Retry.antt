-- ===== src/Http/Resolutions/Retry.antt =====
-- A client that sends a request again.
use wildman_service.Base.{
  ℕ, String, ◌≡◌, refl, ap, ◌∙◌, inl, inr, Option, none, some, List, arith, Bool-cases, Result,
  int_eq, string_eq, nat_eq, ◌==◌, list_eq, Text, ok, err,
}
use wildman_service.Catalog.{TrackObservation, StoredTrackObservation}
use wildman_service.Account.Support.{Environment}
use wildman_service.Account.Quota.Repeat.{consume-later}
use wildman_service.Account.Service.Charges.{consume_quota-free}
use wildman_service.Resolution.Service.Idempotence.{create_request-later}
use wildman_service.Resolution.Service.Frames.{
  upsert_observation-frame, create_request-frame, create_request-reached,
}
use wildman_service.Resolution.Service.{Error, upsert_observation}
use wildman_service.Database.{Database}
use wildman_service.Http.{Request, Response, reply, Header, Server}
use wildman_service.Http.Guards.{request_idempotency_key, request_is_json}
use wildman_service.Http.Resolutions.{
  Context, CreatedResponse, create_for, after_charge, charge_for, after_observation, with_body,
  with_key, post_resolution,
}
use wildman_service.Http.Resolutions.Served.{
  IsServed, create_for-reply, db_of_creation, post_resolution-serves,
}

-- The answer charges nothing, and if it is a reply, it names the request.
abbrev pub IsRepeat :
    {Num : Type 0} → String → Database Num → Response CreatedResponse × Server Num → Type 0
IsRepeat request_id db answer =
    (answer.1.db.usages ≡ db.usages)
    × ((st : ℕ) (v : CreatedResponse) (hs : List Header)
        → answer.0 ≡ reply st v hs
        → v.request_id ≡ request_id)

module _ {Num : Type 0} (c : Context) where
  create_for-repeats :
      (client_id observation_id key request_id : String) (s : Server Num)
      → IsServed client_id key request_id s.db
      → IsRepeat request_id s.db (create_for c client_id observation_id key s)
  create_for-repeats client_id observation_id key request_id s w = (
    ap (λ (d : Database Num). d.usages) (db_of_creation c client_id observation_id key s)
        ∙ (create_request-frame c.creating client_id c.now s.db observation_id key c.request_id).2,
    λ st v hs h.
        let (r, b, ok_r, same) = create_for-reply c client_id observation_id key s st v hs h in
        let (named, calm) =
          create_request-reached c.creating client_id c.now s.db observation_id key c.request_id r b
            ok_r in
        let found =
          create_request-later w.creating c.creating client_id w.observation_id observation_id key
            w.drawn_id c.request_id w.created_at c.now w.request w.fresh w.created_in s.db w.created
            w.same_requests named calm in
        same ∙ (ground (arith, ok_r, found) ∙ w.same_id),
  )

  charge_for-repeats :
      (env : Environment) (client_id observation_id key request_id : String) (s : Server Num)
      → IsServed client_id key request_id s.db
      → IsRepeat request_id s.db
          (charge_for c (some env) client_id key (create_for c client_id observation_id key) s)
  unfolding charge_for after_charge
  charge_for-repeats env client_id observation_id key request_id s w =
      let free =
        consume-later client_id key w.period (env.month_of c.now) w.charged_at c.now w.charged_in
          s.db w.charged w.same_clients w.same_consumptions in
      elim (consume_quota-free env c.charging client_id key c.now s.db free) [
        | inl e ↦
            rw (charge_for, e) (create_for-repeats client_id observation_id key request_id s w)
        | inr e ↦ rw (charge_for, e) (refl, λ st v hs h. cc)
      ]

  IsServed-frame :
      (client_id key request_id : String) (db after : Database Num)
      → IsServed client_id key request_id db
      → after.clients ≡ db.clients
      → after.consumptions ≡ db.consumptions
      → after.requests ≡ db.requests
      → IsServed client_id key request_id after
  IsServed-frame client_id key request_id db after w e f g = record {
    charged_in = w.charged_in;
    period = w.period;
    charged_at = w.charged_at;
    charged = w.charged;
    created_in = w.created_in;
    creating = w.creating;
    observation_id = w.observation_id;
    drawn_id = w.drawn_id;
    created_at = w.created_at;
    request = w.request;
    fresh = w.fresh;
    created = w.created;
    same_id = w.same_id;
    same_clients = e ∙ w.same_clients;
    same_consumptions = f ∙ w.same_consumptions;
    same_requests = g ∙ w.same_requests;
  }

  after_observation-repeats :
      (env : Environment) (client_id key request_id : String)
      (o : Result Error StoredTrackObservation) (s : Server Num)
      → c.accounts ≡ some env
      → IsServed client_id key request_id s.db
      → IsRepeat request_id s.db (after_observation c client_id key o s)
  unfolding after_observation
  after_observation-repeats env client_id key request_id (ok o) s e w =
      rw e (charge_for-repeats env client_id o.id key request_id s w)
  after_observation-repeats env client_id key request_id (err x) s e w =
      (ground arith, λ st v hs h. ground (arith, h))

  with_body-repeats :
      (env : Environment) (client_id key request_id : String) (body : Option TrackObservation)
      (s : Server Num)
      → c.accounts ≡ some env
      → IsServed client_id key request_id s.db
      → IsRepeat request_id s.db (with_body c client_id key body s)
  unfolding with_body
  with_body-repeats env client_id key request_id none s e w = (refl, λ st v hs h. cc)
  with_body-repeats env client_id key request_id (some input) s e w =
      let op =
        upsert_observation c.observing c.valid c.observation_hash client_id input c.observation_id
          c.now s.db in
      let (clients, consumptions, usages, requests) =
        upsert_observation-frame c.observing client_id c.now s.db c.valid c.observation_hash input
          c.observation_id in
      let repeat =
        after_observation-repeats env client_id key request_id op.0 (record s { db = op.1 }) e
          (IsServed-frame client_id key request_id s.db op.1 w clients consumptions requests) in
      (repeat.0 ∙ usages, repeat.1)

  post_resolution-repeats :
      (env : Environment) (client_id key request_id : String) (r : Request) (text : Text)
      (body : Option TrackObservation) (s : Server Num)
      → c.accounts ≡ some env
      → request_idempotency_key r ≡ ok text
      → c.spell text ≡ key
      → IsServed client_id key request_id s.db
      → IsRepeat request_id s.db (post_resolution c client_id r body s)
  unfolding post_resolution with_key
  post_resolution-repeats env client_id key request_id r text body s e k p w =
      elim (Bool-cases (client_id == "")) [
        | inl absent ↦ rw absent (refl, λ st v hs h. cc)
        | inr present ↦ elim (Bool-cases (request_is_json c.fold c.parse_media_type r)) [
          | inr other ↦ rw (present, other) (refl, λ st v hs h. cc)
          | inl json ↦
              rw (present, json, k, p) (with_body-repeats env client_id key request_id body s e w)
        ]
      ]

-- After a POST of a client that was answered with a request, every further POST of the client with the same
-- Idempotency-Key, whatever else it says and whatever fails while it is served, charges no resolution to
-- any account, and if it is answered with a request, it is the same one. The account service is there both
-- times, and nothing else happens in between.
pub post_resolution-again :
    {Num : Type 0} (c c' : Context) (env env' : Environment) (client_id : String) (r r' : Request)
    (body body' : Option TrackObservation) (s : Server Num) (st : ℕ) (v : CreatedResponse)
    (hs : List Header)
    → c.accounts ≡ some env
    → c'.accounts ≡ some env'
    → c'.spell ≡ c.spell
    → request_idempotency_key r' ≡ request_idempotency_key r
    → (post_resolution c client_id r body s).0 ≡ reply st v hs
    → let after = (post_resolution c client_id r body s).1 in
      let again = post_resolution c' client_id r' body' after in
      (again.1.db.usages ≡ after.db.usages)
      × ((st' : ℕ) (v' : CreatedResponse) (hs' : List Header)
          → again.0 ≡ reply st' v' hs'
          → v'.request_id ≡ v.request_id)
post_resolution-again c c' env env' client_id r r' body body' s st v hs e e' spelled same h =
    let (text, k, served) = post_resolution-serves c env client_id r body s st v hs e h in
    post_resolution-repeats c' env' client_id (c.spell text) v.request_id r' text body'
      (post_resolution c client_id r body s).1 e' (same ∙ k)
      (ap (λ (f : Text → String). f text) spelled) served
