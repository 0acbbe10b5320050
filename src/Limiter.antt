-- ===== src/Limiter.antt =====
-- The rate limiters of internal/httpserver: `loginLimiter` (auth_security.go) and
-- `clientRateLimiter` (client_rate_limit.go). Each call of `Allow` holds the mutex from its first
-- read of the entries to its last write, so a run is the sequence of its calls. `now` is an
-- argument of each call.
pub mod Window
pub mod Keys
pub mod Refines
pub mod Bound
pub mod Waits
pub mod Tests
use wildman_service.Base.{
  ℕ, ◌+◌, ◌-◌, String, Bool, true, false, not, Option, none, some, List, [], ◌∷◌, map, leb,
  if◌then◌else◌, ◌==◌, nat_eq, string_eq, list_eq,
}
use wildman_service.Time.{minute, before, elapsed}

-- loginLimitEntry, clientRateEntry: `count` is the field `attempts`, or `requests`.
pub record Entry : Type 0 where
  pub count : ℕ
  pub reset_at : ℕ

-- A Go map from keys to entries; the code never looks at the order of the keys.
abbrev Entries : Type 0
Entries = List (String × Entry)

pub lookup : String → Entries → Option Entry
lookup k [] = none
lookup k ((j, e) ∷ m) = if j == k then some e else lookup k m

pub insert : String → Entry → Entries → Entries
insert k e [] = (k, e) ∷ []
insert k e ((j, d) ∷ m) = if j == k then (k, e) ∷ m else (j, d) ∷ insert k e m

-- The loop that deletes the entries whose window is over.
pub sweep : ℕ → Entries → Entries
sweep now [] = []
sweep now ((k, e) ∷ m) =
    let rest = sweep now m in if before now e.reset_at then (k, e) ∷ rest else rest

pub record Limiter : Type 0 where
  pub entries : Entries
  pub last_cleanup : ℕ

-- newLoginLimiter, newClientRateLimiter
pub new_limiter : ℕ → Limiter
new_limiter now = record { entries = []; last_cleanup = now }

pub data Decision : Type 0 where
  admitted : Decision
  refused : ℕ → Decision

-- The code after the cleanup: the entry that was read decides.
pub decide_entry : ℕ → ℕ → String → ℕ → Option Entry → Limiter → Decision × Limiter
decide_entry limit window key now none l = (
  admitted,
  record l { entries = insert key (record { count = 1; reset_at = now + window }) l.entries },
)
decide_entry limit window key now (some e) l =
    if not (before now e.reset_at)
    then (
      admitted,
      record l { entries = insert key (record { count = 1; reset_at = now + window }) l.entries },
    )
    else if leb limit e.count
    then (refused e.reset_at, l)
    else (admitted, record l { entries = insert key (record e { count = e.count + 1 }) l.entries })

pub cleanup : ℕ → ℕ → Limiter → Limiter
cleanup window now l =
    if elapsed now l.last_cleanup window
    then record { entries = sweep now l.entries; last_cleanup = now }
    else l

-- The body that both `Allow` methods have, over their constants.
pub consult : ℕ → ℕ → String → ℕ → Limiter → Decision × Limiter
unfolding decide_entry cleanup
consult limit window key now l =
    let swept = cleanup window now l in
    decide_entry limit window key now (lookup key swept.entries) swept

abbrev login_limit : ℕ
login_limit = 10

abbrev login_limit_window : ℕ
login_limit_window = minute

abbrev client_rate_limit : ℕ
client_rate_limit = 120

abbrev client_rate_window : ℕ
client_rate_window = minute

pub admits : Decision → Bool
admits admitted = true
admits (refused _) = false

-- loginLimiter.Allow
pub allow_login : String → ℕ → Limiter → Bool × Limiter
unfolding admits
allow_login key now l =
    let (d, l') = consult login_limit login_limit_window key now l in (admits d, l')

-- The wait that goes with a refusal: time.Until reads the clock again, `later`. An instant in the
-- past gives a wait that is not positive, which counts as 0 here.
wait_of : ℕ → Decision → Bool × ℕ
wait_of later admitted = (true, 0)
wait_of later (refused reset_at) = (false, reset_at - later)

-- clientRateLimiter.Allow
pub allow_client : String → ℕ → ℕ → Limiter → (Bool × ℕ) × Limiter
unfolding wait_of
allow_client client_id now later l =
    let (d, l') = consult client_rate_limit client_rate_window client_id now l in
    (wait_of later d, l')
