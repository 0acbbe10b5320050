-- ===== src/Time.antt =====
-- Instants as nanoseconds since the zero `time.Time`, durations as nanoseconds, and how the stores
-- compare the instants that they keep as text.
use wildman_service.Base.{ℕ, ◌+◌, ◌*◌, Bool, ltb, leb, nat_eq, string_eq, list_eq}

abbrev pub second : ℕ
second = 1_000_000_000

abbrev pub minute : ℕ
minute = 60 * second

abbrev pub hour : ℕ
hour = 60 * minute

abbrev pub day : ℕ
day = 24 * hour

-- now.Before(t)
abbrev pub before : ℕ → ℕ → Bool
before now t = ltb now t

-- now.Sub(t) >= d, for a positive d; the difference of two instants may be negative in Go.
abbrev pub elapsed : ℕ → ℕ → ℕ → Bool
elapsed now t d = leb (t + d) now
