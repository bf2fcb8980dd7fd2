-- ===== src/Common/Time.antt =====
-- Timestamps: `datetime` values in UTC, as whole microseconds since the Unix epoch.
use Prim.Native.Nat.{ℕ, suc, ◌+◌, ◌-◌, ◌*◌, ◌/◌, ◌%◌}
use mathlib.Core.Bool.{Bool, false}
use replica_ai.Common.Tests.{leb, if◌then◌else◌}

-- Integers over the native numbers; `negsuc n` is -(n + 1).
pub data ℤ : Type 0 where
  pos : ℕ → ℤ
  negsuc : ℕ → ℤ

abbrev pub second : ℕ
second = 1000000

abbrev pub day : ℕ
day = 86400000000

-- `timedelta(days=n)` and `timedelta(seconds=n)`
abbrev pub days : ℕ → ℕ
days n = n * day

abbrev pub seconds : ℕ → ℕ
seconds n = n * second

-- `(a - b).days`, which rounds towards minus infinity.
abbrev pub days_between : ℕ → ℕ → ℤ
days_between a b = if leb b a then pos ((a - b) / day) else negsuc ((b - a - 1) / day)

-- `max(n - z, 0)` and `max(z, 0)`
abbrev pub remaining_after : ℕ → ℤ → ℕ
remaining_after n (pos k) = n - k
remaining_after n (negsuc k) = n + suc k

abbrev pub max_zero : ℤ → ℕ
max_zero (pos k) = k
max_zero (negsuc k) = 0

-- `z >= n` and `z <= n` for a natural number n.
abbrev pub at_least : ℤ → ℕ → Bool
at_least (pos k) n = leb n k
at_least (negsuc k) n = false

-- `t.hour` and `t.weekday()`; the epoch is the first of January 1970, a Thursday.
abbrev pub hour : ℕ → ℕ
hour t = t / (3600 * second) % 24

abbrev pub weekday : ℕ → ℕ
weekday t = (t / day + 3) % 7
