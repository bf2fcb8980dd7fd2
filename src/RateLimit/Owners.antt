-- ===== src/RateLimit/Owners.antt =====
-- The independence of owners in apps/api/app/core/rate_limit.py.
use replica_ai.Common.{◌<◌, ◌≡◌, ◌≢◌, ◌∙◌, sym, String, arith}
use replica_ai.Redis.{Redis}
use replica_ai.RateLimit.{
  Limits, attempts_key, lockout_key, check_rate_limit, record_attempt, clear_attempts,
}
use replica_ai.RateLimit.Lockout.{keys_differ, attempts_keys_differ, lockout_keys_differ}
use replica_ai.RateLimit.Window.{get-record_ne, ttl-record_ne}

module _ (redis : Redis) (limits : Limits) (window : 0 < limits.window_seconds) where
  open redis use {Store, get, ttl, setex, delete, incr, expire}

  check-same :
      (s t : Store) (j : String)
      → ttl t (lockout_key j) ≡ ttl s (lockout_key j)
      → get t (attempts_key j) ≡ get s (attempts_key j)
      → (check_rate_limit redis limits t j).0 ≡ (check_rate_limit redis limits s j).0
  unfolding check_rate_limit
  check-same s t j e f = ground arith

  ttl-check :
      (s : Store) (o j : String)
      → o ≢ j
      → ttl (check_rate_limit redis limits s o).1 (lockout_key j) ≡ ttl s (lockout_key j)
  unfolding check_rate_limit
  ttl-check s o j ne = ground (
    arith,
    redis.ttl-delete_ne (setex s (lockout_key o) limits.lockout_seconds 1) (attempts_key o)
        (lockout_key j) (keys_differ o j),
    redis.ttl-setex_ne s (lockout_key o) (lockout_key j) limits.lockout_seconds 1
        (lockout_keys_differ o j ne),
  )

  get-check :
      (s : Store) (o j : String)
      → o ≢ j
      → get (check_rate_limit redis limits s o).1 (attempts_key j) ≡ get s (attempts_key j)
  unfolding check_rate_limit
  get-check s o j ne = ground (
    arith,
    redis.get-delete_ne (setex s (lockout_key o) limits.lockout_seconds 1) (attempts_key o)
        (attempts_key j) (attempts_keys_differ o j ne),
    redis.get-setex_ne s (lockout_key o) (attempts_key j) limits.lockout_seconds 1
        (λ e. keys_differ j o (sym e)),
  )

  ttl-clear :
      (s : Store) (o j : String)
      → o ≢ j
      → ttl (clear_attempts redis limits s o) (lockout_key j) ≡ ttl s (lockout_key j)
  unfolding clear_attempts
  ttl-clear s o j ne =
      redis.ttl-delete_ne (delete s (attempts_key o)) (lockout_key o) (lockout_key j)
        (lockout_keys_differ o j ne)
      ∙ redis.ttl-delete_ne s (attempts_key o) (lockout_key j) (keys_differ o j)

  get-clear :
      (s : Store) (o j : String)
      → o ≢ j
      → get (clear_attempts redis limits s o) (attempts_key j) ≡ get s (attempts_key j)
  unfolding clear_attempts
  get-clear s o j ne =
      redis.get-delete_ne (delete s (attempts_key o)) (lockout_key o) (attempts_key j)
        (λ e. keys_differ j o (sym e))
      ∙ redis.get-delete_ne s (attempts_key o) (attempts_key j) (attempts_keys_differ o j ne)

  -- One owner's calls do not change what a check answers to another: not a check, which may start a
  -- lockout, not a failed attempt, and not a success.
  pub owners_isolated :
      (s : Store) (o j : String)
      → o ≢ j
      → let answer = λ (t : Store). (check_rate_limit redis limits t j).0 in
        (answer (check_rate_limit redis limits s o).1 ≡ answer s)
        × (answer (record_attempt redis limits s o).1 ≡ answer s)
        × (answer (clear_attempts redis limits s o) ≡ answer s)
  owners_isolated s o j ne = (
    check-same s (check_rate_limit redis limits s o).1 j (ttl-check s o j ne) (get-check s o j ne),
    check-same s (record_attempt redis limits s o).1 j
        (ttl-record_ne redis limits window s o (lockout_key j) (keys_differ o j))
        (get-record_ne redis limits window s o (attempts_key j) (attempts_keys_differ o j ne)),
    check-same s (clear_attempts redis limits s o) j (ttl-clear s o j ne) (get-clear s o j ne),
  )
