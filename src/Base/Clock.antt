-- ===== src/Base/Clock.antt =====
-- `chrono`: points in time in nanoseconds since the epoch, and durations in seconds.
use Prim.Native.Nat.{ℕ, ◌/◌, ◌+◌}
use mathlib.Core.Path.{◌≡◌}
use native.Mathlib.Omega.{arith}
use api_starter.Base.Int.{ℤ, pos, negsuc, ◌+ℤ◌, ◌*ℤ◌}

abbrev pub nanos : ℕ
nanos = 1000000000

-- `t + Duration::seconds(s)`
unfoldable pub add_seconds : ℤ → ℤ → ℤ
unfolding ◌+ℤ◌ ◌*ℤ◌
add_seconds t s = t +ℤ s *ℤ pos nanos

-- `DateTime::timestamp`, in whole seconds, rounded down.
unfoldable pub timestamp : ℤ → ℤ
timestamp (pos n) = pos (n / nanos)
timestamp (negsuc n) = negsuc (n / nanos)

-- From a time after the epoch a positive number of seconds leads that many seconds further.
pub timestamp-add_seconds :
    (t s : ℕ) → timestamp (add_seconds (pos t) (pos s)) ≡ pos (t / nanos + s)
unfolding timestamp add_seconds
timestamp-add_seconds t s = ground arith
