-- ===== src/RateLimit/Window.antt =====
-- Counting failed attempts in apps/api/app/core/rate_limit.py: the count within its window.
use replica_ai.Common.{
  ℕ, zero, suc, ◌+◌, ◌<◌, ◌≡◌, ◌≢◌, ◌∙◌, sym, String, true, false, some, none, or_default, arith,
  ltb, refl, if◌then◌else◌,
}
use replica_ai.Common.Time.{pos}
use replica_ai.Redis.{Redis}
use replica_ai.RateLimit.{
  Limits, attempts_key, lockout_key, check_rate_limit, record_attempt, clear_attempts,
}
use replica_ai.RateLimit.Lockout.{keys_differ, check-unlocked, check-over}

module _ (redis : Redis) (limits : Limits) where
  -- `n` failed attempts in a row, with no time between them.
  abbrev pub record_times : ℕ → redis.Store → String → redis.Store
  record_times zero s o = s
  record_times (suc n) s o = (record_attempt redis limits (record_times n s o) o).1

module _ (redis : Redis) (limits : Limits) (window : 0 < limits.window_seconds) where
  open redis use {Store, get, ttl, setex, delete, incr, expire, elapse}

  count-record :
      (s : Store) (o : String)
      → (record_attempt redis limits s o).0 ≡ or_default 0 (get s (attempts_key o)) + 1
  unfolding record_attempt
  count-record s o = ground (arith, redis.get-incr s (attempts_key o))

  get-record :
      (s : Store) (o : String)
      → get (record_attempt redis limits s o).1 (attempts_key o)
        ≡ some (or_default 0 (get s (attempts_key o)) + 1)
  unfolding record_attempt
  get-record s o = ground (
    arith,
    redis.get-incr s (attempts_key o),
    redis.get-expire (incr s (attempts_key o)) (attempts_key o) (attempts_key o)
        limits.window_seconds window,
  )

  -- A key of anything else.
  pub get-record_ne :
      (s : Store) (o k : String)
      → attempts_key o ≢ k
      → get (record_attempt redis limits s o).1 k ≡ get s k
  unfolding record_attempt
  get-record_ne s o k ne = ground (
    arith,
    redis.get-incr_ne s (attempts_key o) k ne,
    redis.get-expire (incr s (attempts_key o)) (attempts_key o) k limits.window_seconds window,
  )

  pub ttl-record_ne :
      (s : Store) (o k : String)
      → attempts_key o ≢ k
      → ttl (record_attempt redis limits s o).1 k ≡ ttl s k
  unfolding record_attempt
  ttl-record_ne s o k ne = ground (
    arith,
    redis.ttl-incr_ne s (attempts_key o) k ne,
    redis.ttl-expire_ne (incr s (attempts_key o)) (attempts_key o) k limits.window_seconds ne,
  )

  ttl-record_first :
      (s : Store) (o : String)
      → get s (attempts_key o) ≡ none
      → ttl (record_attempt redis limits s o).1 (attempts_key o) ≡ pos limits.window_seconds
  unfolding record_attempt
  ttl-record_first s o e = ground (
    arith,
    redis.get-incr s (attempts_key o),
    redis.ttl-expire (incr s (attempts_key o)) (attempts_key o) limits.window_seconds window,
  )

  ttl-record_later :
      (s : Store) (o : String) (n : ℕ)
      → get s (attempts_key o) ≡ some (suc n)
      → ttl (record_attempt redis limits s o).1 (attempts_key o) ≡ ttl s (attempts_key o)
  unfolding record_attempt
  ttl-record_later s o n e =
      ground (arith, redis.get-incr s (attempts_key o), redis.ttl-incr s (attempts_key o))

  abbrev cleared : Store → String → Store
  cleared s o = clear_attempts redis limits s o

  get-cleared : (s : Store) (o : String) → get (cleared s o) (attempts_key o) ≡ none
  unfolding clear_attempts
  get-cleared s o =
      redis.get-delete_ne (delete s (attempts_key o)) (lockout_key o) (attempts_key o)
        (λ e. keys_differ o o (sym e))
      ∙ redis.get-delete s (attempts_key o)

  lockout-cleared : (s : Store) (o : String) → get (cleared s o) (lockout_key o) ≡ none
  unfolding clear_attempts
  lockout-cleared s o = redis.get-delete (delete s (attempts_key o)) (lockout_key o)

  lockout-record_times :
      (n : ℕ) (s : Store) (o : String)
      → get (record_times redis limits n s o) (lockout_key o) ≡ get s (lockout_key o)
  lockout-record_times zero s o = refl
  lockout-record_times (suc n) s o =
      get-record_ne (record_times redis limits n s o) o (lockout_key o) (keys_differ o o)
      ∙ lockout-record_times n s o

  count-record_times :
      (n : ℕ) (s : Store) (o : String)
      → get s (attempts_key o) ≡ none
      → or_default 0 (get (record_times redis limits n s o) (attempts_key o)) ≡ n
  count-record_times zero s o e = ground arith
  count-record_times (suc n) s o e =
      ground (arith, get-record (record_times redis limits n s o) o, count-record_times n s o e)

  -- Below the limit a check lets the attempt proceed and changes nothing.
  pub check-record_times :
      (n : ℕ) (s : Store) (o : String)
      → n < limits.max_attempts
      → let t = record_times redis limits n (clear_attempts redis limits s o) o in
        check_rate_limit redis limits t o ≡ ((true, 0), t)
  check-record_times n s o h =
      let t : Store = record_times redis limits n (cleared s o) o in
      let counted = count-record_times n (cleared s o) o (get-cleared s o) in
      check-unlocked redis limits t o (lockout-record_times n (cleared s o) o ∙ lockout-cleared s o)
        (rw counted h)

  -- Whatever came before: once the attempts are cleared, a check after `n` failed attempts in a row
  -- allows exactly if `n` is below the limit; otherwise it denies for the lockout time.
  pub allowed_below_max :
      (n : ℕ) (s : Store) (o : String)
      → (check_rate_limit redis limits
          (record_times redis limits n (clear_attempts redis limits s o) o)
          o).0
        ≡ (if ltb n limits.max_attempts then (true, 0) else (false, limits.lockout_seconds))
  allowed_below_max n s o =
      let t : Store = record_times redis limits n (cleared s o) o in
      let counted = count-record_times n (cleared s o) o (get-cleared s o) in
      let free : get t (lockout_key o) ≡ none =
        lockout-record_times n (cleared s o) o ∙ lockout-cleared s o in
      ground
        (arith, counted, check-unlocked redis limits t o free, check-over redis limits t o free)

  ttl-record_times :
      (n : ℕ) (s : Store) (o : String)
      → get s (attempts_key o) ≡ none
      → (get (record_times redis limits (suc n) s o) (attempts_key o) ≡ some (suc n))
        × (ttl (record_times redis limits (suc n) s o) (attempts_key o) ≡ pos limits.window_seconds)
  ttl-record_times zero s o e = (ground (arith, get-record s o), ttl-record_first s o e)
  ttl-record_times (suc n) s o e =
      let before = ttl-record_times n s o e in
      (
        ground (arith, get-record (record_times redis limits (suc n) s o) o, before.0),
        ttl-record_later (record_times redis limits (suc n) s o) o n before.0 ∙ before.1,
      )

  -- The window runs from the first failed attempt, and later attempts do not extend it: after one
  -- or more attempts in a row from a store with none, all of them are counted until the window is
  -- over, and none from then on.
  pub window_is_fixed :
      (n d : ℕ) (s : Store) (o : String)
      → get s (attempts_key o) ≡ none
      → get (elapse d (record_times redis limits (suc n) s o)) (attempts_key o)
        ≡ (if ltb d limits.window_seconds then some (suc n) else none)
  window_is_fixed n d s o e =
      let t : Store = record_times redis limits (suc n) s o in
      let (counted, left) = ttl-record_times n s o e in
      ground (
        arith,
        counted,
        redis.get-elapse t (attempts_key o) d limits.window_seconds left,
        redis.get-elapse_over t (attempts_key o) d limits.window_seconds left,
      )
