-- ===== src/RateLimit/Tests.antt =====
-- The rate limit theorems with the settings of apps/api/app/core/config.py.
use replica_ai.Common.{◌≡◌, refl, String, false, Option, none, some, arith, if◌then◌else◌, str_eq}
use replica_ai.Redis.Table.{table, Entry}
use replica_ai.RateLimit.{Limits, attempts_key, lockout_key, check_rate_limit}
use replica_ai.RateLimit.Lockout.{lockout_life}

abbrev defaults : Limits
defaults = record { max_attempts = 3; window_seconds = 900; lockout_seconds = 3600 }

-- Three failed attempts of one owner.
abbrev full : String → Option Entry
full k = if str_eq k "rate:verify:ann" then some (record { value = 3; left = some 900 }) else none

lockout_life_example :
    let (r, s1) = check_rate_limit table defaults full "ann" in
    (r ≡ (false, 3600))
    × (check_rate_limit table defaults (table.elapse 3000 s1) "ann"
        ≡ ((false, 600), table.elapse 3000 s1))
lockout_life_example =
    lockout_life table defaults full "ann" 3000 (omega arith) (omega arith)
      (unfold lockout_key in refl) (unfold attempts_key in omega arith)
