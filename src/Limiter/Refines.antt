-- ===== src/Limiter/Refines.antt =====
-- The limiter implements one window for each key: neither the sweep nor the other keys show.
use wildman_service.Base.{
  ℕ, ◌+◌, ◌≤◌, String, ◌≡◌, refl, sym, ap, subst, ◌∙◌, inl, inr, false, Option, none, some, List,
  [], ◌∷◌, arith, eq_iff, if◌then◌else◌, Bool-cases, int_eq, string_eq, nat_eq, ◌==◌, list_eq,
}
use wildman_service.Limiter.{
  Entry, Limiter, lookup, cleanup, decide_entry, consult, admits, new_limiter,
}
use wildman_service.Limiter.Window.{Window, Ordered, open_at, spend, still, spent}
use wildman_service.Limiter.Keys.{lookup-insert, HasOnce, open_at_later-sweep, HasOnce-consult}

-- The window of `k` that a limiter holds, seen at `now` and at every later instant.
abbrev pub Shows : String → Limiter → Option Window → ℕ → Type 0
Shows k l w now = (later : ℕ) → now ≤ later → open_at later (lookup k l.entries) ≡ still later w

module _ (limit window : ℕ) (key : String) (now : ℕ) where
  abbrev opened : Entry
  opened = record { count = 1; reset_at = now + window }

  decide-spend :
      (l : Limiter) (o : Option Entry)
      → (decide_entry limit window key now o l).0 ≡ (spend limit window now (open_at now o)).0
  unfolding decide_entry spend open_at
  decide-spend l none = refl
  decide-spend l (some x) = ground arith

  decide-Shows :
      (l : Limiter) (o : Option Entry)
      → lookup key l.entries ≡ o
      → Shows key
          (decide_entry limit window key now o l).1
          (spend limit window now (open_at now o)).1
          now
  unfolding decide_entry spend open_at still
  decide-Shows l none e later h =
      ground (arith, lookup-insert key key opened l.entries, eq_iff key key)
  decide-Shows l (some x) e later h = ground (
    arith,
    lookup-insert key key opened l.entries,
    lookup-insert key key (record x { count = x.count + 1 }) l.entries,
    eq_iff key key,
  )

  lookup-decide_other :
      (l : Limiter) (o : Option Entry) (k : String)
      → (key == k) ≡ false
      → lookup k (decide_entry limit window key now o l).1.entries ≡ lookup k l.entries
  unfolding decide_entry
  lookup-decide_other l none k other = rw (lookup-insert key k opened l.entries, other)
  lookup-decide_other l (some x) k other = ground (
    arith,
    lookup-insert key k opened l.entries,
    lookup-insert key k (record x { count = x.count + 1 }) l.entries,
  )

lookup_later-cleanup :
    (window now later : ℕ) (k : String) (l : Limiter)
    → now ≤ later
    → HasOnce l.entries
    → open_at later (lookup k (cleanup window now l).entries) ≡ open_at later (lookup k l.entries)
unfolding cleanup
lookup_later-cleanup window now later k l h u =
    ground (arith, open_at_later-sweep now later k l.entries)

-- One call of the limiter is one step of the window of its key, and no step of any other.
pub consult-spend :
    (limit window : ℕ) (key : String) (now : ℕ) (l : Limiter) (w : Option Window)
    → HasOnce l.entries
    → Shows key l w now
    → let r = consult limit window key now l in
      let v = spend limit window now (still now w) in (r.0 ≡ v.0) × Shows key r.1 v.1 now
unfolding consult
consult-spend limit window key now l w u sh =
    let swept = cleanup window now l in
    let o = lookup key swept.entries in
    let same : open_at now o ≡ still now w =
      lookup_later-cleanup window now now key l (omega arith) u ∙ sh now (omega arith) in
    rw (← same)
      (decide-spend limit window key now swept o, decide-Shows limit window key now swept o refl)

pub consult-other :
    (limit window : ℕ) (key k : String) (now : ℕ) (l : Limiter) (w : Option Window)
    → HasOnce l.entries
    → (key == k) ≡ false
    → Shows k l w now
    → Shows k (consult limit window key now l).1 w now
unfolding consult
consult-other limit window key k now l w u other sh later h =
    let swept = cleanup window now l in
    ap (open_at later)
      (lookup-decide_other limit window key now swept (lookup key swept.entries) k other)
    ∙ lookup_later-cleanup window now later k l h u
    ∙ sh later h

-- A run of calls, each with its key and its instant.
abbrev pub Calls : Type 0
Calls = List (String × ℕ)

-- How many calls of the key `k` a limiter admits.
pub count_admitted : ℕ → ℕ → String → Limiter → Calls → ℕ
count_admitted limit window k l [] = 0
count_admitted limit window k l ((key, now) ∷ cs) =
    let (d, l') = consult limit window key now l in
    (if key == k then (if admits d then 1 else 0) else 0) + count_admitted limit window k l' cs

abbrev pub times : Calls → List ℕ
times [] = []
times ((key, now) ∷ cs) = now ∷ times cs

abbrev pub times_of : String → Calls → List ℕ
times_of k [] = []
times_of k ((key, now) ∷ cs) = if key == k then now ∷ times_of k cs else times_of k cs

pub Shows-later :
    (k : String) (l : Limiter) (w : Option Window) (now later : ℕ)
    → now ≤ later
    → Shows k l w now
    → Shows k l w later
Shows-later k l w now later h sh t ht = sh t (omega arith)

pub count_admitted-spent :
    (limit window : ℕ) (k : String) (l : Limiter) (w : Option Window) (t : ℕ) (cs : Calls)
    → HasOnce l.entries
    → Shows k l w t
    → Ordered t (times cs)
    → count_admitted limit window k l cs ≡ spent limit window w (times_of k cs)
unfolding count_admitted spent
count_admitted-spent limit window k l w t [] u sh o = refl
count_admitted-spent limit window k l w t ((key, now) ∷ cs) u sh o =
    let l' = (consult limit window key now l).1 in
    let u' = HasOnce-consult limit window key now l u in
    let sh' = Shows-later k l w t now o.0 sh in
    elim (Bool-cases (key == k)) [
      | inl hit ↦
          let same : key ≡ k = (eq_iff key k).0 hit in
          let sh₂ : Shows key l w now = subst (λ i. Shows i l w now) (sym same) sh' in
          let st = consult-spend limit window key now l w u sh₂ in
          let after : Shows k l' (spend limit window now (still now w)).1 now =
            subst (λ i. Shows i l' (spend limit window now (still now w)).1 now) same st.1 in
          rw (
            hit,
            st.0,
            count_admitted-spent limit window k l' (spend limit window now (still now w)).1 now cs
                u' after o.1,
          )
      | inr miss ↦ rw (miss) (
          rw
            (count_admitted-spent limit window k l' w now cs u'
              (consult-other limit window key k now l w u miss sh') o.1)
            (omega arith))
    ]

-- Over any run of calls in the order of their instants, what a limiter admits of a key is what one
-- window admits of the instants of that key alone. It is stated from the limiter that the server
-- starts with.
pub count_admitted_refines :
    (limit window : ℕ) (k : String) (start : ℕ) (cs : Calls)
    → Ordered start (times cs)
    → count_admitted limit window k (new_limiter start) cs ≡ spent limit window none (times_of k cs)
unfolding new_limiter
count_admitted_refines limit window k start cs o =
    count_admitted-spent limit window k (record { entries = []; last_cleanup = start }) none start
      cs tt (λ later h. unfold lookup open_at still in refl) o
