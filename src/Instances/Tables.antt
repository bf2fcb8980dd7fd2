-- ===== src/Instances/Tables.antt =====
-- How the updates of apps/api/app/services/instance_manager.py change what is counted in a table.
use replica_ai.Common.{
  ◌≡◌, refl, Bool, true, false, some, List, [], ◌∷◌, ◌++◌, first, update_first, update_where,
  delete_first, count, arith, ◌≤◌,
}

module _ {A : Type 0} (test : A → Bool) where
  pub count-append :
      (xs : List A) (x : A) → test x ≡ false → count test (xs ++ x ∷ []) ≡ count test xs
  count-append [] x h = ground arith
  count-append (y ∷ xs) x h = ground (arith, count-append xs x h)

  -- An update that does not change the test does not change the count.
  pub count-update_where :
      (at : A → Bool) (change : A → A)
      → ((x : A) → test (change x) ≡ test x)
      → (xs : List A) → count test (update_where at change xs) ≡ count test xs
  count-update_where at change same [] = refl
  count-update_where at change same (x ∷ xs) =
      ground (arith, same x, count-update_where at change same xs)

  pub count-update_first :
      (at : A → Bool) (change : A → A)
      → ((x : A) → test (change x) ≡ test x)
      → (xs : List A) → count test (update_first at change xs) ≡ count test xs
  count-update_first at change same [] = refl
  count-update_first at change same (x ∷ xs) =
      ground (arith, same x, count-update_first at change same xs)

  pub count-delete_first :
      (at : A → Bool) (xs : List A) → count test (delete_first at xs) ≤ count test xs
  count-delete_first at [] = omega arith
  count-delete_first at (x ∷ xs) = ground (arith, count-delete_first at xs)

  -- An update of rows that the test leaves out, before and after.
  pub count-update_where_out :
      (at : A → Bool) (change : A → A)
      → ((x : A) → at x ≡ true → test x ≡ false)
      → ((x : A) → at x ≡ true → test (change x) ≡ false)
      → (xs : List A) → count test (update_where at change xs) ≡ count test xs
  count-update_where_out at change before after [] = refl
  count-update_where_out at change before after (x ∷ xs) =
      ground (arith, before x, after x, count-update_where_out at change before after xs)

  pub count-update_first_out :
      (at : A → Bool) (change : A → A)
      → ((x : A) → at x ≡ true → test x ≡ false)
      → ((x : A) → at x ≡ true → test (change x) ≡ false)
      → (xs : List A) → count test (update_first at change xs) ≡ count test xs
  count-update_first_out at change before after [] = refl
  count-update_first_out at change before after (x ∷ xs) =
      ground (arith, before x, after x, count-update_first_out at change before after xs)

  -- An update of one row brings it into the count.
  pub count-update_first_in :
      (at : A → Bool) (change : A → A)
      → ((x : A) → at x ≡ true → test (change x) ≡ true)
      → (xs : List A) → count test xs ≡ 0
      → (x : A) → first at xs ≡ some x
      → count test (update_first at change xs) ≡ 1
  count-update_first_in at change inside [] none_yet x found = cc
  count-update_first_in at change inside (y ∷ xs) none_yet x found =
      ground (arith, inside y, count-update_first_in at change inside xs _ x)
