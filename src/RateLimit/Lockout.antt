-- ===== src/RateLimit/Lockout.antt =====
-- The life of a lockout of apps/api/app/core/rate_limit.py: when it begins, how long it lasts, and
-- what ends it.
use Prim.Native.Char.{code}
use Prim.Native.String.{◌++◌ as str_append}
use text.Mathlib.TextLemmas.{cons-append, append_assoc, append_cancel_left, head-eq_of_cons-eq}
use replica_ai.Common.{
  ap, ◌∙◌, ℕ, ◌-◌, ◌<◌, ◌≤◌, ◌≡◌, ◌≢◌, sym, String, true, false, none, or_default, arith, ltb, refl,
  Bool-cases, inl, inr, if◌then◌else◌,
}
use replica_ai.Common.Time.{pos}
use replica_ai.Redis.{Redis}
use replica_ai.RateLimit.{Limits, attempts_key, lockout_key, check_rate_limit}

pub keys_differ : (o j : String) → attempts_key o ≢ lockout_key j
unfolding attempts_key lockout_key
keys_differ o j e =
    let behind =
      append_cancel_left "rate:" (str_append "verify:" o) (str_append "lockout:" j)
        (sym (append_assoc "rate:" "verify:" o) ∙ e ∙ append_assoc "rate:" "lockout:" j) in
    let heads : code "v" ≡ code "l" = ap code (
      head-eq_of_cons-eq
        (sym (cons-append "v" "erify:" o) ∙ behind ∙ cons-append "l" "ockout:" j)) in
    absurd (omega arith)

pub attempts_keys_differ : (o j : String) → o ≢ j → attempts_key o ≢ attempts_key j
unfolding attempts_key
attempts_keys_differ o j ne e = ne (append_cancel_left "rate:verify:" o j e)

pub lockout_keys_differ : (o j : String) → o ≢ j → lockout_key o ≢ lockout_key j
unfolding lockout_key
lockout_keys_differ o j ne e = ne (append_cancel_left "rate:lockout:" o j e)

module _ (redis : Redis) (limits : Limits) where
  open redis use {Store, get, ttl, setex, delete, incr, expire, elapse}

  -- What a check answers and leaves is settled by the two keys.
  pub check-locked :
      (s : Store) (o : String) (left : ℕ)
      → 0 < left
      → ttl s (lockout_key o) ≡ pos left
      → check_rate_limit redis limits s o ≡ ((false, left), s)
  unfolding check_rate_limit
  check-locked s o left h e = ground arith

  pub check-unlocked :
      (s : Store) (o : String)
      → get s (lockout_key o) ≡ none
      → or_default 0 (get s (attempts_key o)) < limits.max_attempts
      → check_rate_limit redis limits s o ≡ ((true, 0), s)
  unfolding check_rate_limit
  check-unlocked s o e h = ground (arith, redis.ttl-missing s (lockout_key o) e)

  pub check-over :
      (s : Store) (o : String)
      → get s (lockout_key o) ≡ none
      → limits.max_attempts ≤ or_default 0 (get s (attempts_key o))
      → check_rate_limit redis limits s o ≡ (
        (false, limits.lockout_seconds),
        delete (setex s (lockout_key o) limits.lockout_seconds 1) (attempts_key o),
      )
  unfolding check_rate_limit
  check-over s o e h = ground (arith, redis.ttl-missing s (lockout_key o) e)

  -- The store right after a lockout has begun.
  abbrev locked_out : Store → String → Store
  locked_out s o = delete (setex s (lockout_key o) limits.lockout_seconds 1) (attempts_key o)

  ttl-locked_out :
      (s : Store) (o : String)
      → 0 < limits.lockout_seconds
      → ttl (locked_out s o) (lockout_key o) ≡ pos limits.lockout_seconds
  ttl-locked_out s o h =
      redis.ttl-delete_ne (setex s (lockout_key o) limits.lockout_seconds 1) (attempts_key o)
        (lockout_key o) (keys_differ o o)
      ∙ redis.ttl-setex s (lockout_key o) limits.lockout_seconds 1 h

  -- A check at the limit, with no lockout running, denies for the whole lockout time. Any number
  -- `d` of seconds later, with no attempt between, a check denies and names the rest of the time
  -- if the lockout time is not over, and allows if it is; either way it changes nothing.
  pub lockout_life :
      (s : Store) (o : String) (d : ℕ)
      → 0 < limits.lockout_seconds
      → 0 < limits.max_attempts
      → get s (lockout_key o) ≡ none
      → limits.max_attempts ≤ or_default 0 (get s (attempts_key o))
      → let (r, s1) = check_rate_limit redis limits s o in
        (r ≡ (false, limits.lockout_seconds))
        × (check_rate_limit redis limits (elapse d s1) o ≡ (
          (if ltb d limits.lockout_seconds then (false, limits.lockout_seconds - d) else (true, 0)),
          elapse d s1,
        ))
  lockout_life s o d hl hm free full = rw (check-over s o free full) (
    refl,
    elim (Bool-cases (ltb d limits.lockout_seconds)) [
      | inl e ↦ rw e (
          check-locked (elapse d (locked_out s o)) o (limits.lockout_seconds - d) (ground arith) (
            redis.ttl-elapse (locked_out s o) (lockout_key o) d limits.lockout_seconds
              (ttl-locked_out s o hl) (ground arith)))
      | inr e ↦ rw e (
          check-unlocked (elapse d (locked_out s o)) o
            (redis.get-elapse_over (locked_out s o) (lockout_key o) d limits.lockout_seconds
              (ttl-locked_out s o hl) (ground arith))
            (rw
              (redis.get-elapse_missing (locked_out s o) (attempts_key o) d (
                redis.get-delete (setex s (lockout_key o) limits.lockout_seconds 1)
                  (attempts_key o)))
              hm))
    ],
  )
