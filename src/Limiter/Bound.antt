-- ===== src/Limiter/Bound.antt =====
-- How many calls of one key a limiter admits in a span of one window.
use wildman_service.Base.{
  true, ℕ, ◌+◌, ◌-◌, ◌*◌, ◌≤◌, String, ◌≡◌, refl, inl, inr, Option, none, some, List, [], ◌∷◌,
  arith, Bool-cases, length, ◌==◌, nat_eq, string_eq, list_eq,
}
use wildman_service.Limiter.{
  Limiter, Entry, admits, lookup, new_limiter, allow_login, allow_client, consult, cleanup,
  decide_entry, sweep, wait_of,
}
use wildman_service.Limiter.Window.{Window, Ordered, Until, open_at, spend, still, spent}
use wildman_service.Limiter.Keys.{HasOnce}
use wildman_service.Limiter.Refines.{
  Calls, Shows, times, times_of, count_admitted, count_admitted-spent, count_admitted_refines,
}

spent-le_open :
    (limit length : ℕ) (w : Window) (ts : List ℕ)
    → Until w.ends ts
    → spent limit length (some w) ts ≤ limit - w.used
unfolding spent still spend admits
spent-le_open limit length w [] h = omega arith
spent-le_open limit length w (now ∷ ts) h = ground (
  arith,
  spent-le_open limit length w ts h.1,
  spent-le_open limit length (record w { used = w.used + 1 }) ts h.1,
)

Until-mono : (s t : ℕ) (ts : List ℕ) → s ≤ t → Until s ts → Until t ts
Until-mono s t [] h u = tt
Until-mono s t (x ∷ ts) h u = (omega arith, Until-mono s t ts h u.1)

spent-le_none :
    (limit length t : ℕ) (ts : List ℕ)
    → 1 ≤ limit
    → Ordered t ts
    → Until (t + length) ts
    → spent limit length none ts ≤ limit
unfolding spent still spend admits
spent-le_none limit length t [] pos o u = omega arith
spent-le_none limit length t (now ∷ ts) pos o u = omega (
  arith,
  spent-le_open limit length (record { used = 1; ends = now + length }) ts
      (Until-mono (t + length) (now + length) ts (omega arith) u.1),
)

spent-le_some :
    (limit length t : ℕ) (w : Window) (ts : List ℕ)
    → 1 ≤ limit
    → Ordered t ts
    → Until (t + length) ts
    → spent limit length (some w) ts ≤ (limit - w.used) + limit
unfolding spent still spend admits
spent-le_some limit length t w [] pos o u = omega arith
spent-le_some limit length t w (now ∷ ts) pos o u =
    let o' : Ordered t ts = Ordered-mono t now ts o.0 o.1 in
    ground (
      arith,
      spent-le_some limit length t w ts pos o' u.1,
      spent-le_some limit length t (record w { used = w.used + 1 }) ts pos o' u.1,
      spent-le_open limit length (record { used = 1; ends = now + length }) ts
          (Until-mono (t + length) (now + length) ts (omega arith) u.1),
    )
  where
    Ordered-mono : (s t : ℕ) (ts : List ℕ) → s ≤ t → Ordered t ts → Ordered s ts
    Ordered-mono s t [] h q = tt
    Ordered-mono s t (x ∷ ts) h q = (omega arith, q.1)

-- The instants of one key are some of all the instants.
Until-times_of : (t : ℕ) (k : String) (cs : Calls) → Until t (times cs) → Until t (times_of k cs)
Until-times_of t k [] u = tt
Until-times_of t k ((key, now) ∷ cs) u = ground (arith, Until-times_of t k cs u.1)

Ordered-times_of :
    (t : ℕ) (k : String) (cs : Calls) → Ordered t (times cs) → Ordered t (times_of k cs)
Ordered-times_of t k [] o = tt
Ordered-times_of t k ((key, now) ∷ cs) o = elim (Bool-cases (key == k)) [
  | inl hit ↦ rw hit (o.0, Ordered-times_of now k cs o.1)
  | inr miss ↦ rw miss (weaken (times_of k cs) (Ordered-times_of now k cs o.1))
]
  where
    weaken : (ts : List ℕ) → Ordered now ts → Ordered t ts
    weaken [] q = tt
    weaken (x ∷ ts) q = (omega (arith, o.0), q.1)

-- A limiter that has just started admits at most `limit` calls of a key within one window.
pub count_admitted-le_limit :
    (limit window : ℕ) (k : String) (start : ℕ) (cs : Calls)
    → 1 ≤ limit
    → Ordered start (times cs)
    → Until (start + window) (times cs)
    → count_admitted limit window k (new_limiter start) cs ≤ limit
count_admitted-le_limit limit window k start cs pos o u =
    rw (count_admitted_refines limit window k start cs o) (
      spent-le_none limit window start (times_of k cs) pos (Ordered-times_of start k cs o)
        (Until-times_of (start + window) k cs u))

pub window_of : Option Entry → Option Window
window_of none = none
window_of (some e) = some (record { used = e.count; ends = e.reset_at })

pub window_of-Shows :
    (k : String) (l : Limiter) (now : ℕ) → Shows k l (window_of (lookup k l.entries)) now
unfolding window_of open_at still
window_of-Shows k l now later h = same (lookup k l.entries)
  where
    same : (o : Option Entry) → open_at later o ≡ still later (window_of o)
    same none = refl
    same (some e) = refl

spent-le_twice :
    (limit length t : ℕ) (w : Option Window) (ts : List ℕ)
    → 1 ≤ limit
    → Ordered t ts
    → Until (t + length) ts
    → spent limit length w ts ≤ 2 * limit
spent-le_twice limit length t none ts pos o u =
    omega (arith, spent-le_none limit length t ts pos o u)
spent-le_twice limit length t (some w) ts pos o u =
    omega (arith, spent-le_some limit length t w ts pos o u)

-- Whatever state a limiter has reached, it admits at most twice `limit` calls of a key in a span of
-- one window, wherever the span begins.
pub count_admitted-le_twice :
    (limit window : ℕ) (k : String) (l : Limiter) (t : ℕ) (cs : Calls)
    → 1 ≤ limit
    → HasOnce l.entries
    → Ordered t (times cs)
    → Until (t + window) (times cs)
    → count_admitted limit window k l cs ≤ 2 * limit
count_admitted-le_twice limit window k l t cs pos once o u =
    rw
      (count_admitted-spent limit window k l (window_of (lookup k l.entries)) t cs once
        (window_of-Shows k l t) o)
      (spent-le_twice limit window t (window_of (lookup k l.entries)) (times_of k cs) pos
        (Ordered-times_of t k cs o) (Until-times_of (t + window) k cs u))

-- A limiter that has just been made admits the first call.
pub allow_client-first :
    (id : String) (now later start : ℕ) → (allow_client id now later (new_limiter start)).0.0 ≡ true
unfolding allow_client consult cleanup decide_entry new_limiter lookup sweep wait_of
allow_client-first id now later start = ground arith

pub allow_login-first :
    (key : String) (now start : ℕ) → (allow_login key now (new_limiter start)).0 ≡ true
unfolding allow_login consult cleanup decide_entry new_limiter lookup sweep admits
allow_login-first key now start = ground arith
