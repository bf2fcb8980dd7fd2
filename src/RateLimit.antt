-- ===== src/RateLimit.antt =====
-- The limit on verification attempts: apps/api/app/core/rate_limit.py, over a Redis store. The
-- settings `verify_max_attempts`, `verify_window_seconds` and `verify_lockout_seconds` are a record.
use Prim.Native.String.{◌++◌ as str_append}
use replica_ai.Common.{
  ℕ, String, Bool, true, false, Option, some, or_default, leb, ◌==◌, if◌then◌else◌,
}
use replica_ai.Common.Time.{ℤ, pos, negsuc}
use replica_ai.Redis.{Redis}
pub mod Lockout
pub mod Window
pub mod Owners
mod Tests

pub record Limits : Type 0 where
  pub max_attempts : ℕ
  pub window_seconds : ℕ
  pub lockout_seconds : ℕ

-- `VERIFY_PREFIX` and `LOCKOUT_PREFIX` with the owner behind.
unfoldable pub attempts_key : String → String
attempts_key owner_id = str_append "rate:verify:" owner_id

unfoldable pub lockout_key : String → String
lockout_key owner_id = str_append "rate:lockout:" owner_id

abbrev pub positive_part : ℤ → ℕ
positive_part (pos n) = n
positive_part (negsuc n) = 0

module _ (redis : Redis) (limits : Limits) where
  open redis use {Store, get, ttl, setex, delete, incr, expire}

  -- Whether the attempt may proceed, the seconds to wait, and the store.
  unfoldable pub check_rate_limit : Store → String → (Bool × ℕ) × Store
  check_rate_limit s owner_id =
      let left = positive_part (ttl s (lockout_key owner_id)) in
      let current = or_default 0 (get s (attempts_key owner_id)) in
      if leb 1 left
      then ((false, left), s)
      else if leb limits.max_attempts current
      then (
        (false, limits.lockout_seconds),
        delete (setex s (lockout_key owner_id) limits.lockout_seconds 1) (attempts_key owner_id),
      )
      else ((true, 0), s)

  -- The new count, and the store; the first attempt opens the window.
  unfoldable pub record_attempt : Store → String → ℕ × Store
  record_attempt s owner_id =
      let s' = incr s (attempts_key owner_id) in
      let count = or_default 0 (get s' (attempts_key owner_id)) in
      (count, if count == 1 then expire s' (attempts_key owner_id) limits.window_seconds else s')

  unfoldable pub clear_attempts : Store → String → Store
  clear_attempts s owner_id = delete (delete s (attempts_key owner_id)) (lockout_key owner_id)
