-- ===== src/Limiter/Tests.antt =====
-- Runs of the limiters, and the theorems at them.
use wildman_service.Base.{
  ◌≤◌, ◌≡◌, refl, false, none, [], ◌∷◌, arith, int_eq, string_eq, nat_eq, list_eq,
}
use wildman_service.Limiter.{Limiter, allow_client, consult, lookup, new_limiter}
use wildman_service.Limiter.Keys.{HasOnce}
use wildman_service.Limiter.Window.{spent}
use wildman_service.Limiter.Refines.{Calls, count_admitted, count_admitted_refines}
use wildman_service.Limiter.Bound.{count_admitted-le_twice}

-- Three calls of one address and one of another.
abbrev calls : Calls
calls = ("a", 1) ∷ ("a", 2) ∷ ("b", 3) ∷ ("a", 4) ∷ []

-- The limiter of a client that has used up its window at the instant 60.
abbrev busy : Limiter
busy = record { entries = ("a", record { count = 2; reset_at = 60 }) ∷ []; last_cleanup = 0 }

-- The limiter of the server after 120 calls of one client.
abbrev pub used_up : Limiter
used_up = record { entries = ("c1", record { count = 120; reset_at = 60 }) ∷ []; last_cleanup = 0 }

pub allow_client_waits : allow_client "c1" 10 15 used_up ≡ ((false, 45), used_up)
unfolding allow_client consult lookup
allow_client_waits = refl

pub used_up-HasOnce : HasOnce used_up.entries
unfolding lookup
used_up-HasOnce = (refl, tt)

count_admitted_refines_example :
    count_admitted 2 60 "a" (new_limiter 0) calls ≡ spent 2 60 none (1 ∷ 2 ∷ 4 ∷ [])
count_admitted_refines_example = count_admitted_refines 2 60 "a" 0 calls (omega arith)

-- Two calls at the end of one window and two at the start of the next.
count_admitted-le_twice_example :
    count_admitted 2 60 "a"
      (record { entries = ("a", record { count = 0; reset_at = 60 }) ∷ []; last_cleanup = 0 })
      (("a", 58) ∷ ("a", 59) ∷ ("a", 60) ∷ ("a", 61) ∷ [])
    ≤ 4
unfolding lookup
count_admitted-le_twice_example =
    count_admitted-le_twice 2 60 "a" _ 58 _ (omega arith) (refl, tt) (omega arith) (omega arith)
