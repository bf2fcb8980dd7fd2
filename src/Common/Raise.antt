-- ===== src/Common/Raise.antt =====
-- Python calls: a value or an exception, and methods that change a state on the way.
use Prim.Native.String.{String}
use mathlib.Core.List.{List, [], ◌∷◌}
use mathlib.Core.Option.{Option, none, some}
use mathlib.Core.Path.{◌≡◌, refl}
use mathlib.Core.Logic.{◌⊎◌, inl, inr}

pub data Exception : Type 0 where
  -- `ValueError(message)`
  value_error : String → Exception
  -- `RuntimeError(message)`
  runtime_error : String → Exception
  -- reading an attribute of `None`
  attribute_error : Exception
  -- any other exception that a library raises
  other_error : String → Exception

pub data Result {ℓ} (A : Type ℓ) : Type ℓ where
  err : Exception → Result A
  ok : A → Result A

-- A chain of calls: the first exception ends it.
infixl 5 ◌>>◌ ◌>>=◌
abbrev pub ◌>>◌ {ℓ} : {B : Type ℓ} → Result (Unit {0}) → Result B → Result B
err e >> call = err e
ok u >> call = call

abbrev pub ◌>>=◌ {ℓ κ} : {A : Type ℓ} {B : Type κ} → Result A → (A → Result B) → Result B
err e >>= call = err e
ok value >>= call = call value

-- What holds of the value, where there is one.
abbrev pub WhereOk {ℓ κ} : {A : Type ℓ} → (A → Type κ) → Result A → Type κ
WhereOk Holds (err e) = Unit
WhereOk Holds (ok a) = Holds a

pub WhereOk-weaken {ℓ κ} :
    {A : Type ℓ} (Holds Holds' : A → Type κ)
    → ((a : A) → Holds a → Holds' a)
    → (r : Result A) → WhereOk Holds r
    → WhereOk Holds' r
WhereOk-weaken Holds Holds' f (err e) h = tt
WhereOk-weaken Holds Holds' f (ok a) h = f a h

pub Result-cases {ℓ} :
    {A : Type ℓ} (r : Result A) → ((e : Exception) × (r ≡ err e)) ⊎ ((a : A) × (r ≡ ok a))
Result-cases (err e) = inl (e, refl)
Result-cases (ok a) = inr (a, refl)

-- `scalar_one_or_none` on a query without a unique key: more than one row raises.
unfoldable pub one_or_none : {A : Type 0} → List A → Result (Option A)
one_or_none [] = ok none
one_or_none (x ∷ []) = ok (some x)
one_or_none (x ∷ y ∷ rows) =
    err (other_error "Multiple rows were found when one or none was required")
