-- ===== src/Family/InForce.antt =====
-- The checks of apps/api/app/services/family_access.py on validity and time of day decide what they
-- are for.
use replica_ai.Common.{ℕ, ◌≡◌, ◌↔◌, refl, false, Option, none, some, arith}
use replica_ai.Family.Data.{TimeRestrictions}
use replica_ai.Family.Window.{time_refusal, has_expired, hour_allowed, Unexpired, InWindow}

pub time_refusal_iff :
    (now : ℕ) (tr : Option TimeRestrictions) → (time_refusal now tr ≡ none) ↔ InWindow now tr
unfolding time_refusal hour_allowed
time_refusal_iff now none = (λ e. tt, λ h. refl)
time_refusal_iff now (some tr) = ground arith

pub Unexpired-iff : (now : ℕ) (u : Option ℕ) → (has_expired now u ≡ false) ↔ Unexpired now u
unfolding has_expired
Unexpired-iff now none = (λ e. tt, λ h. refl)
Unexpired-iff now (some t) = ground arith
