-- ===== src/Family/Window.antt =====
-- When an access rule is in force: the checks of activity, validity and time of day that
-- `validate_family_access` and `family_login` of apps/api/app/services/family_access.py share.
use replica_ai.Common.{
  ℕ, ◌≤◌, ◌≡◌, ◌⊎◌, String, Bool, true, false, not, ◌&&◌, ◌||◌, Option, none, some, List, [], ◌∷◌,
  ltb, leb, ◌==◌, is_some, str_eq, or_default, if◌then◌else◌,
}
use replica_ai.Common.Time.{hour, weekday}
use replica_ai.Family.Data.{TimeRestrictions}

-- `days_map.get(d, -1)`; no weekday is -1.
unfoldable pub day_number : String → Option ℕ
day_number d =
    if str_eq d "mon"
    then some 0
    else if str_eq d "tue"
    then some 1
    else if str_eq d "wed"
    then some 2
    else if str_eq d "thu"
    then some 3
    else if str_eq d "fri"
    then some 4
    else if str_eq d "sat"
    then some 5
    else if str_eq d "sun"
    then some 6
    else none

abbrev pub is_number : ℕ → Option ℕ → Bool
is_number n none = false
is_number n (some k) = k == n

-- `now.weekday() in allowed_days`
unfoldable pub day_allowed : ℕ → List String → Bool
unfolding day_number
day_allowed n [] = false
day_allowed n (d ∷ ds) = is_number n (day_number d) || day_allowed n ds

-- `if rule.time_restrictions:`, so an empty object restricts nothing.
unfoldable pub has_restrictions : TimeRestrictions → Bool
has_restrictions tr =
    is_some tr.allowed_days || is_some tr.start_hour || is_some tr.end_hour || is_some tr.timezone

unfoldable pub hour_allowed : ℕ → TimeRestrictions → Bool
hour_allowed now tr =
    leb (or_default 0 tr.start_hour) (hour now) && leb (hour now) (or_default 23 tr.end_hour)

-- The refusal by time of day, if there is one.
unfoldable pub time_refusal : ℕ → Option TimeRestrictions → Option String
unfolding has_restrictions day_allowed hour_allowed
time_refusal now none = none
time_refusal now (some tr) =
    if not (has_restrictions tr)
    then none
    else if not (day_allowed (weekday now) (or_default [] tr.allowed_days))
    then some "Access is not available at this time."
    else if not (hour_allowed now tr)
    then some "Access is not available at this hour."
    else none

-- `rule.valid_until and now > rule.valid_until`
unfoldable pub has_expired : ℕ → Option ℕ → Bool
has_expired now none = false
has_expired now (some t) = ltb t now

-- What these checks mean.
abbrev pub Unexpired : ℕ → Option ℕ → Type 0
Unexpired now none = Unit
Unexpired now (some t) = now ≤ t

abbrev pub InWindow : ℕ → Option TimeRestrictions → Type 0
InWindow now none = Unit
InWindow now (some tr) =
    (has_restrictions tr ≡ false)
    ⊎ (day_allowed (weekday now) (or_default [] tr.allowed_days) ≡ true)
      × (or_default 0 tr.start_hour ≤ hour now)
      × (hour now ≤ or_default 23 tr.end_hour)
