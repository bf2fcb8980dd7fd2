-- ===== src/Search/Ranking.antt =====
-- Lists by score, as apps/ai/app/services/search.py makes them: the best of each entry in a
-- dictionary, and a stable sort with the highest score first.
use replica_ai.Common.{
  ℕ, zero, suc, ◌≤◌, arith, Bool, String, List, [], ◌∷◌, ◌++◌, All, length, select, str_eq,
  if◌then◌else◌, if-both, map,
}

module _ {A : Type 0} where
  -- `d[key] = x`, where the key is new or x is better; a dictionary keeps the places of its keys.
  abbrev pub put_best : (A → String) → (A → A → Bool) → A → List A → List A
  put_best key better x [] = x ∷ []
  put_best key better x (y ∷ ys) =
      let rest = put_best key better x ys in
      if str_eq (key y) (key x) then (if better x y then x ∷ ys else y ∷ ys) else y ∷ rest

  abbrev pub best_from : (A → String) → (A → A → Bool) → List A → List A → List A
  best_from key better found [] = found
  best_from key better found (x ∷ xs) = best_from key better (put_best key better x found) xs

  -- The best of each key, in the order in which the keys first came.
  unfoldable pub best_by_key : (A → String) → (A → A → Bool) → List A → List A
  best_by_key key better xs = best_from key better [] xs

  abbrev pub insert : (A → A → Bool) → A → List A → List A
  insert better x [] = x ∷ []
  insert better x (y ∷ ys) =
      let rest = insert better x ys in if better x y then x ∷ y ∷ ys else y ∷ rest

  abbrev pub insert_all : (A → A → Bool) → List A → List A → List A
  insert_all better sorted [] = sorted
  insert_all better sorted (x ∷ xs) = insert_all better (insert better x sorted) xs

  -- `sorted(xs, key=…, reverse=True)`
  unfoldable pub rank : (A → A → Bool) → List A → List A
  rank better xs = insert_all better [] xs

  -- `xs[:n]`
  abbrev pub take : ℕ → List A → List A
  take zero xs = []
  take (suc n) [] = []
  take (suc n) (x ∷ xs) = x ∷ take n xs

module _ {A : Type 0} (Holds : A → Type 0) where
  pub All-put_best :
      (key : A → String) (better : A → A → Bool) (x : A) (ys : List A)
      → Holds x
      → All Holds ys
      → All Holds (put_best key better x ys)
  All-put_best key better x [] h a = (h, tt)
  All-put_best key better x (y ∷ ys) h (here, a) =
      if-both (All Holds) (str_eq (key y) (key x)) _ _
        (if-both (All Holds) (better x y) (x ∷ ys) (y ∷ ys) (h, a) (here, a))
        (here, All-put_best key better x ys h a)

  pub All-best_from :
      (key : A → String) (better : A → A → Bool) (found xs : List A)
      → All Holds found
      → All Holds xs
      → All Holds (best_from key better found xs)
  All-best_from key better found [] f a = f
  All-best_from key better found (x ∷ xs) f (h, a) =
      All-best_from key better (put_best key better x found) xs
        (All-put_best key better x found h f) a

  pub All-best_by_key :
      (key : A → String) (better : A → A → Bool) (xs : List A)
      → All Holds xs
      → All Holds (best_by_key key better xs)
  unfolding best_by_key
  All-best_by_key key better xs a = All-best_from key better [] xs tt a

  pub All-insert :
      (better : A → A → Bool) (x : A) (ys : List A)
      → Holds x
      → All Holds ys
      → All Holds (insert better x ys)
  All-insert better x [] h a = (h, tt)
  All-insert better x (y ∷ ys) h (here, a) =
      if-both (All Holds) (better x y) (x ∷ y ∷ ys) _ (h, (here, a))
        (here, All-insert better x ys h a)

  All-insert_all :
      (better : A → A → Bool) (sorted xs : List A)
      → All Holds sorted
      → All Holds xs
      → All Holds (insert_all better sorted xs)
  All-insert_all better sorted [] s a = s
  All-insert_all better sorted (x ∷ xs) s (h, a) =
      All-insert_all better (insert better x sorted) xs (All-insert better x sorted h s) a

  pub All-rank : (better : A → A → Bool) (xs : List A) → All Holds xs → All Holds (rank better xs)
  unfolding rank
  All-rank better xs a = All-insert_all better [] xs tt a

  pub All-take : (n : ℕ) (xs : List A) → All Holds xs → All Holds (take n xs)
  All-take zero xs a = tt
  All-take (suc n) [] a = tt
  All-take (suc n) (x ∷ xs) (h, a) = (h, All-take n xs a)

  pub All-select : (test : A → Bool) (xs : List A) → All Holds xs → All Holds (select test xs)
  All-select test [] a = tt
  All-select test (x ∷ xs) (h, a) =
      if-both (All Holds) (test x) (x ∷ select test xs) _ (h, All-select test xs a)
        (All-select test xs a)

  pub All-append : (xs ys : List A) → All Holds xs → All Holds ys → All Holds (xs ++ ys)
  All-append [] ys a b = b
  All-append (x ∷ xs) ys (h, a) b = (h, All-append xs ys a b)

pub All-map :
    {A B : Type 0} (Holds : A → Type 0) (Holds' : B → Type 0) (f : A → B)
    → ((x : A) → Holds x → Holds' (f x))
    → (xs : List A) → All Holds xs
    → All Holds' (map f xs)
All-map Holds Holds' f keeps [] a = tt
All-map Holds Holds' f keeps (x ∷ xs) (h, a) = (keeps x h, All-map Holds Holds' f keeps xs a)

pub All-weaken :
    {A : Type 0} (Holds Holds' : A → Type 0)
    → ((x : A) → Holds x → Holds' x)
    → (xs : List A) → All Holds xs
    → All Holds' xs
All-weaken Holds Holds' f [] a = tt
All-weaken Holds Holds' f (x ∷ xs) (h, a) = (f x h, All-weaken Holds Holds' f xs a)

pub length-take : {A : Type 0} (n : ℕ) (xs : List A) → length (take n xs) ≤ n
length-take zero xs = omega arith
length-take (suc n) [] = omega arith
length-take (suc n) (x ∷ xs) = omega (arith, length-take n xs)

pub length-select_le :
    {A : Type 0} (test : A → Bool) (xs : List A) → length (select test xs) ≤ length xs
length-select_le test [] = omega arith
length-select_le test (x ∷ xs) = ground (arith, length-select_le test xs)
