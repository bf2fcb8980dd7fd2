-- ===== src/Common/Lists.antt =====
-- Tables as lists of rows: the queries and updates that the services make, and their laws.
use Prim.Native.Nat.{ℕ, suc, ◌+◌}
use mathlib.Core.Path.{◌≡◌, refl, ap}
use mathlib.Core.Bool.{Bool, true}
use mathlib.Core.Option.{Option, none, some}
use mathlib.Core.List.{List, [], ◌∷◌, ◌++◌}
use native.Mathlib.Omega.{arith}
use replica_ai.Common.Tests.{if◌then◌else◌}

-- A predicate on every row.
module _ {ℓ κ} {A : Type ℓ} where
  abbrev pub All : (A → Type κ) → List A → Type κ
  All Holds (row ∷ rows) = Holds row × All Holds rows
  All Holds [] = Unit

module _ {ℓ} {A : Type ℓ} where
  abbrev pub length : List A → ℕ
  length [] = 0
  length (x ∷ xs) = suc (length xs)

  -- `SELECT … WHERE test`
  abbrev pub select : (A → Bool) → List A → List A
  select test [] = []
  select test (x ∷ xs) = let rest = select test xs in if test x then x ∷ rest else rest

  -- The first row that passes the test.
  abbrev pub first : (A → Bool) → List A → Option A
  first test [] = none
  first test (x ∷ xs) = let rest = first test xs in if test x then some x else rest

  -- `UPDATE … WHERE test`
  abbrev pub update_where : (A → Bool) → (A → A) → List A → List A
  update_where test change [] = []
  update_where test change (x ∷ xs) = (if test x then change x else x) ∷ update_where test change xs

  -- A write to the first row that passes the test.
  abbrev pub update_first : (A → Bool) → (A → A) → List A → List A
  update_first test change [] = []
  update_first test change (x ∷ xs) =
      let rest = update_first test change xs in if test x then change x ∷ xs else x ∷ rest

  -- A write to the last row.
  abbrev pub update_last : (A → A) → List A → List A
  update_last change [] = []
  update_last change (x ∷ []) = change x ∷ []
  update_last change (x ∷ (y ∷ xs)) = x ∷ update_last change (y ∷ xs)

  -- `DELETE` of the first row that passes the test.
  abbrev pub delete_first : (A → Bool) → List A → List A
  delete_first test [] = []
  delete_first test (x ∷ xs) = let rest = delete_first test xs in if test x then xs else x ∷ rest

  abbrev pub count : (A → Bool) → List A → ℕ
  count test [] = 0
  count test (x ∷ xs) = (if test x then 1 else 0) + count test xs

module _ {ℓ} {A : Type ℓ} where
  pub length-append : (xs ys : List A) → length (xs ++ ys) ≡ length xs + length ys
  length-append [] ys = omega arith
  length-append (x ∷ xs) ys = omega (arith, length-append xs ys)

  pub update_last-append :
      (change : A → A) (xs : List A) (x : A)
      → update_last change (xs ++ x ∷ []) ≡ xs ++ change x ∷ []
  update_last-append change [] x = refl
  update_last-append change (y ∷ []) x = refl
  update_last-append change (y ∷ (z ∷ xs)) x =
      ap (λ rest. y ∷ rest) (update_last-append change (z ∷ xs) x)

  pub length-select : (test : A → Bool) (xs : List A) → length (select test xs) ≡ count test xs
  length-select test [] = refl
  length-select test (x ∷ xs) = ground (arith, length-select test xs)

  pub first_passes :
      (test : A → Bool) (xs : List A) (x : A) → first test xs ≡ some x → test x ≡ true
  first_passes test [] x h = cc
  first_passes test (y ∷ xs) x h = ground (arith, first_passes test xs x)
