-- ===== src/Limiter/Keys.antt =====
-- The map from keys to entries keeps each key once, and a sweep does not show in what it finds.
use wildman_service.Base.{
  ℕ, ◌+◌, ◌≤◌, String, ◌≡◌, refl, subst, inl, inr, none, some, [], ◌∷◌, arith, eq_iff,
  if◌then◌else◌, Bool-cases, int_eq, string_eq, nat_eq, ◌==◌, list_eq,
}
use wildman_service.Limiter.{
  Entry, Entries, Limiter, lookup, insert, sweep, cleanup, decide_entry, consult,
}
use wildman_service.Limiter.Window.{open_at}

pub lookup-insert :
    (k j : String) (e : Entry) (m : Entries)
    → lookup j (insert k e m) ≡ (if k == j then some e else lookup j m)
unfolding lookup insert
lookup-insert k j e [] = refl
lookup-insert k j e ((i, d) ∷ m) =
    ground (arith, eq_iff k j, eq_iff i k, eq_iff i j, lookup-insert k j e m)

abbrev pub Fresh : String → Entries → Type 0
Fresh k m = lookup k m ≡ none

-- A map has a key once.
abbrev pub HasOnce : Entries → Type 0
HasOnce [] = Unit {0}
HasOnce ((k, e) ∷ m) = Fresh k m × HasOnce m

pub lookup-sweep_none : (now : ℕ) (k : String) (m : Entries) → Fresh k m → Fresh k (sweep now m)
unfolding lookup sweep
lookup-sweep_none now k [] h = refl
lookup-sweep_none now k ((j, e) ∷ m) h = ground (arith, lookup-sweep_none now k m)

pub open_at_later-sweep :
    (now later : ℕ) (k : String) (m : Entries)
    → now ≤ later
    → HasOnce m
    → open_at later (lookup k (sweep now m)) ≡ open_at later (lookup k m)
unfolding lookup sweep open_at
open_at_later-sweep now later k [] h u = refl
open_at_later-sweep now later k ((j, e) ∷ m) h u =
    ground
      (arith, eq_iff j k, open_at_later-sweep now later k m h u.1, lookup-sweep_none now j m u.0)

pub HasOnce-sweep : (now : ℕ) (m : Entries) → HasOnce m → HasOnce (sweep now m)
unfolding sweep
HasOnce-sweep now [] u = tt
HasOnce-sweep now ((j, e) ∷ m) u =
    ground (arith, lookup-sweep_none now j m u.0, HasOnce-sweep now m u.1)

pub HasOnce-insert : (k : String) (e : Entry) (m : Entries) → HasOnce m → HasOnce (insert k e m)
unfolding insert
HasOnce-insert k e [] u = (unfold lookup in refl, tt)
HasOnce-insert k e ((j, d) ∷ m) u = elim (Bool-cases (j == k)) [
  | inl same ↦ rw same (subst (λ i. Fresh i m) ((eq_iff j k).0 same) u.0, u.1)
  | inr other ↦
      rw other
        (ground (arith, eq_iff k j, eq_iff j k, lookup-insert k j e m), HasOnce-insert k e m u.1)
]

pub HasOnce-cleanup :
    (window now : ℕ) (l : Limiter) → HasOnce l.entries → HasOnce (cleanup window now l).entries
unfolding cleanup
HasOnce-cleanup window now l u = ground (arith, HasOnce-sweep now l.entries u)

-- The map of a limiter keeps each key once.
pub HasOnce-consult :
    (limit window : ℕ) (key : String) (now : ℕ) (l : Limiter)
    → HasOnce l.entries
    → HasOnce (consult limit window key now l).1.entries
unfolding consult
HasOnce-consult limit window key now l u =
    elim (lookup key (cleanup window now l).entries)
      as (λ o. HasOnce (decide_entry limit window key now o (cleanup window now l)).1.entries) [
        | none ↦ HasOnce-insert key _ _ (HasOnce-cleanup window now l u)
        | some e ↦ ground (
          arith,
          HasOnce-insert key (record { count = 1; reset_at = now + window })
              (cleanup window now l).entries,
          HasOnce-insert key (record e { count = e.count + 1 }) (cleanup window now l).entries,
          HasOnce-cleanup window now l u,
        )
      ]
