-- ===== src/Limiter/Waits.antt =====
-- How long a refused caller has to wait: internal/httpserver/client_rate_limit.go.
use wildman_service.Base.{
  ℕ, ◌+◌, ◌-◌, ◌≤◌, String, ◌≡◌, refl, sym, ap, subst, ◌∙◌, inl, inr, true, false, Option, none,
  some, [], ◌∷◌, arith, Bool-cases, int_eq, string_eq, nat_eq, ◌==◌, list_eq,
}
use wildman_service.Limiter.{
  Limiter, Decision, admitted, refused, consult, lookup, allow_client, wait_of, client_rate_limit,
  client_rate_window,
}
use wildman_service.Limiter.Window.{Window, Ordered, Until, spend, still}
use wildman_service.Limiter.Keys.{HasOnce, HasOnce-consult}
use wildman_service.Limiter.Refines.{
  Calls, Shows, Shows-later, consult-spend, consult-other, times, times_of,
}
use wildman_service.Limiter.Bound.{window_of, window_of-Shows}

-- The limiter after a run of calls.
unfoldable pub after_calls : ℕ → ℕ → Calls → Limiter → Limiter
after_calls limit window [] l = l
after_calls limit window ((key, now) ∷ cs) l =
    after_calls limit window cs (consult limit window key now l).1

module _ (limit window : ℕ) (k : String) where
  -- Calls of other keys leave the window of a key.
  after_calls-Shows :
      (l : Limiter) (w : Option Window) (t last : ℕ) (cs : Calls)
      → HasOnce l.entries
      → Shows k l w t
      → Ordered t (times cs)
      → Until (1 + last) (times cs)
      → t ≤ last
      → times_of k cs ≡ []
      → HasOnce (after_calls limit window cs l).entries
        × Shows k (after_calls limit window cs l) w last
  unfolding after_calls
  after_calls-Shows l w t last [] once sh o u h apart = (once, Shows-later k l w t last h sh)
  after_calls-Shows l w t last ((key, now) ∷ cs) once sh o u h apart =
      elim (Bool-cases (key == k)) [
        | inl hit ↦ cc (rw hit at apart)
        | inr miss ↦
            after_calls-Shows (consult limit window key now l).1 w now last cs
              (HasOnce-consult limit window key now l once)
              (consult-other limit window key k now l w once miss (Shows-later k l w t now o.0 sh))
              o.1 u.1 (omega (arith, u.0)) (rw miss at apart)
      ]

  spend-refused :
      (now ends : ℕ) (w : Option Window)
      → (spend limit window now w).0 ≡ refused ends
      → (v : Window) × (v.ends ≡ ends) × ((spend limit window now w).1 ≡ some v)
  unfolding spend
  spend-refused now ends none h = absurd (ground (arith, h))
  spend-refused now ends (some w) h = (w, ground arith, ground arith)

  spend-over :
      (t : ℕ) (v : Window) → v.ends ≤ t → (spend limit window t (still t (some v))).0 ≡ admitted
  unfolding spend still
  spend-over t v h = ground arith

  -- A call that is refused until `ends` is admitted from then on, if only calls of other keys are
  -- made in between.
  pub consult-waits :
      (now ends t : ℕ) (l : Limiter) (cs : Calls)
      → HasOnce l.entries
      → Ordered now (times cs)
      → Until (1 + t) (times cs)
      → times_of k cs ≡ []
      → now ≤ t
      → ends ≤ t
      → (consult limit window k now l).0 ≡ refused ends
      → (consult limit window k t (after_calls limit window cs (consult limit window k now l).1)).0
        ≡ admitted
  consult-waits now ends t l cs once o u apart h over refusal =
      let w = window_of (lookup k l.entries) in
      let (same, shows) = consult-spend limit window k now l w once (window_of-Shows k l now) in
      let (v, until, kept) = spend-refused now ends (still now w) (sym same ∙ refusal) in
      let l' = (consult limit window k now l).1 in
      let (once', shows') =
        after_calls-Shows l' (some v) now t cs (HasOnce-consult limit window k now l once)
          (subst (λ x. Shows k l' x now) kept shows) o u h apart in
      (consult-spend limit window k t (after_calls limit window cs l') (some v) once' shows').0
      ∙ spend-over t v (omega (arith, until))

-- The client limiter after the calls of these clients.
abbrev pub after_clients : Calls → Limiter → Limiter
after_clients = after_calls client_rate_limit client_rate_window

-- A client that is refused and waits as long as it is told is admitted, if only others call meanwhile.
pub allow_client-waits :
    (id : String) (now later wait t t' : ℕ) (l : Limiter) (cs : Calls)
    → HasOnce l.entries
    → Ordered now (times cs)
    → Until (1 + t) (times cs)
    → times_of id cs ≡ []
    → now ≤ t
    → later + wait ≤ t
    → (allow_client id now later l).0 ≡ (false, wait)
    → (allow_client id t t' (after_clients cs (allow_client id now later l).1)).0 ≡ (true, 0)
unfolding allow_client wait_of
allow_client-waits id now later wait t t' l cs once o u apart h over refusal =
    go (consult client_rate_limit client_rate_window id now l).0 refl
  where
    go :
        (d : Decision)
        → (consult client_rate_limit client_rate_window id now l).0 ≡ d
        → (allow_client id t t' (after_clients cs (allow_client id now later l).1)).0 ≡ (true, 0)
    go admitted e = absurd (ground (arith, rw e at refusal))
    go (refused ends) e =
        let same : ends - later ≡ wait = ground (arith, rw e at refusal) in
        ap (wait_of t') (
          consult-waits client_rate_limit client_rate_window id now ends t l cs once o u apart h
            (omega arith) e)
