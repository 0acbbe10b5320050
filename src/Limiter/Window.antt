-- ===== src/Limiter/Window.antt =====
-- What a limiter promises to one key: a fixed window that opens with a call, admits up to `limit`
-- calls until it ends, and is forgotten after that. It knows nothing of other keys or of cleanups.
use wildman_service.Base.{
  ℕ, ◌+◌, ◌≤◌, ◌<◌, Option, none, some, List, [], ◌∷◌, leb, if◌then◌else◌, length, nat_eq,
  string_eq, list_eq,
}
use wildman_service.Time.{before}
use wildman_service.Limiter.{Entry, Decision, admitted, refused, admits}

pub record Window : Type 0 where
  pub used : ℕ
  pub ends : ℕ

-- `none`: no window is open.
unfoldable pub open_at : ℕ → Option Entry → Option Window
open_at now none = none
open_at now (some e) =
    if before now e.reset_at then some (record { used = e.count; ends = e.reset_at }) else none

unfoldable pub spend : ℕ → ℕ → ℕ → Option Window → Decision × Option Window
spend limit length now none = (admitted, some (record { used = 1; ends = now + length }))
spend limit length now (some w) =
    if leb limit w.used
    then (refused w.ends, some w)
    else (admitted, some (record w { used = w.used + 1 }))

-- A window that is over is forgotten.
unfoldable pub still : ℕ → Option Window → Option Window
still now none = none
still now (some w) = if before now w.ends then some w else none

-- How many of the calls at these instants are admitted.
unfoldable pub spent : ℕ → ℕ → Option Window → List ℕ → ℕ
spent limit length w [] = 0
spent limit length w (now ∷ ts) =
    let (d, w') = spend limit length now (still now w) in
    (if admits d then 1 else 0) + spent limit length w' ts

-- The instants do not fall, from `t` on.
abbrev pub Ordered : ℕ → List ℕ → Type 0
Ordered t [] = Unit {0}
Ordered t (now ∷ ts) = (t ≤ now) × Ordered now ts

-- They stay below `t`.
abbrev pub Until : ℕ → List ℕ → Type 0
Until t [] = Unit {0}
Until t (now ∷ ts) = (now < t) × Until t ts
