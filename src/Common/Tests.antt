-- ===== src/Common/Tests.antt =====
-- Boolean tests on native numbers and texts, the conditional, and case lemmas on computed values.
use text.Mathlib.Text.{◌==◌ as str_eq}
use mathlib.Core.List.{List, [], ◌∷◌}
use Prim.Native.Nat.{ℕ, ◌≤◌, ◌<◌, compare, Ordering}
use Prim.Native.String.{String}
use mathlib.Core.Path.{◌≡◌, refl}
use mathlib.Core.Logic.{◌⊎◌, inl, inr}
use mathlib.Core.Bool.{Bool, true, false, ◌||◌}
use mathlib.Core.Option.{Option, none, some}
use native.Mathlib.Omega.{arith}

abbrev pub ltb : ℕ → ℕ → Bool
ltb a b = elim (compare a b) [ Ordering.lt ↦ true | _ ↦ false ]

abbrev pub leb : ℕ → ℕ → Bool
leb a b = elim (compare a b) [ Ordering.gt ↦ false | _ ↦ true ]

infix 50 ◌==◌
abbrev pub ◌==◌ : ℕ → ℕ → Bool
a == b = elim (compare a b) [ Ordering.eq ↦ true | _ ↦ false ]

infix 1 if◌then◌else◌
abbrev pub if◌then◌else◌ {ℓ} : {A : Type ℓ} → Bool → A → A → A
if true then x else y = x
if false then x else y = y

-- A truthiness test on an optional text: both `None` and "" count as false.
abbrev pub is_blank : String → Bool
is_blank String.[] = true
is_blank (String.◌∷◌ c s) = false

abbrev pub truthy : Option String → Bool
truthy none = false
truthy (some String.[]) = false
truthy (some (String.◌∷◌ c s)) = true

abbrev pub is_some {ℓ} : {A : Type ℓ} → Option A → Bool
is_some none = false
is_some (some a) = true

abbrev pub or_default {ℓ} : {A : Type ℓ} → A → Option A → A
or_default d none = d
or_default d (some a) = a

pub Bool-cases : (b : Bool) → (b ≡ true) ⊎ (b ≡ false)
Bool-cases true = inl refl
Bool-cases false = inr refl

pub Option-cases {ℓ} : {A : Type ℓ} (o : Option A) → (o ≡ none) ⊎ ((a : A) × (o ≡ some a))
Option-cases none = inl refl
Option-cases (some a) = inr (a, refl)

-- What holds of both branches.
pub if-both {ℓ κ} :
    {A : Type ℓ} (Holds : A → Type κ) (test : Bool) (x y : A)
    → Holds x
    → Holds y
    → Holds (if test then x else y)
if-both Holds true x y h k = h
if-both Holds false x y h k = k

-- What holds of each branch where it is taken.
pub if-cases {ℓ κ} :
    {A : Type ℓ} (Holds : A → Type κ) (test : Bool) (x y : A)
    → (test ≡ true → Holds x)
    → (test ≡ false → Holds y)
    → Holds (if test then x else y)
if-cases Holds true x y h k = h refl
if-cases Holds false x y h k = k refl

pub leb→le : (a b : ℕ) → leb a b ≡ true → a ≤ b
leb→le a b h = ground arith

pub ltb→lt : (a b : ℕ) → ltb a b ≡ true → a < b
ltb→lt a b h = ground arith

-- `x in xs` on texts.
abbrev pub contains : List String → String → Bool
contains [] s = false
contains (x ∷ xs) s = str_eq x s || contains xs s
