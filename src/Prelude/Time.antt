-- ===== src/Prelude/Time.antt =====
-- Instants and durations. An instant (`DateTime<Utc>`, `Instant`) is a count of nanoseconds from
-- a fixed origin, a `Duration` a count of nanoseconds; a caller passes in what the clock read.
use Prim.Native.Nat.{ℕ, ◌*◌, ◌/◌}
use agent_auth.Prelude.Int.{ℤ, sub_ℕ, trunc_div}

abbrev pub nanos_per_sec : ℕ
nanos_per_sec = 1_000_000_000

-- `Duration::from_secs`
abbrev pub from_secs : ℕ → ℕ
from_secs s = s * nanos_per_sec

-- `(later - earlier).num_seconds()`: whole seconds, towards zero.
abbrev pub num_seconds_between : ℕ → ℕ → ℤ
num_seconds_between later earlier = trunc_div (sub_ℕ later earlier) nanos_per_sec

-- `timestamp()`: whole seconds since the origin.
abbrev pub timestamp : ℕ → ℕ
timestamp t = t / nanos_per_sec
