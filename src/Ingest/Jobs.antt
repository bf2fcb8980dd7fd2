-- ===== src/Ingest/Jobs.antt =====
-- Python's coroutines with a state: each ends with a value or an exception, and `try … except`.
use replica_ai.Common.{◌⊎◌, inl, inr}
use replica_ai.Common.Raise.{Exception, Result, ok, err}

abbrev pub Job : Type 0 → Type 0 → Type 0
Job W A = W → Result A × W

module _ {W A B : Type 0} where
  abbrev pub follow : Result A × W → (A → Job W B) → Result B × W
  follow (err e, w) f = (err e, w)
  follow (ok a, w) f = f a w

infixl 5 ◌>>=◌ ◌>>◌
unfoldable pub ◌>>=◌ : {W A B : Type 0} → Job W A → (A → Job W B) → Job W B
◌>>=◌ m f w = follow (m w) f

abbrev pub ◌>>◌ : {W A B : Type 0} → Job W A → Job W B → Job W B
◌>>◌ m n = m >>= (λ a. n)

-- `try: job except Exception as exc: handler`
abbrev pub settle : {W A : Type 0} → Result A × W → (Exception → W → W) → W
settle (ok a, w) handler = w
settle (err e, w) handler = handler e w

-- A job that keeps `Before` where it raises, and reaches `After` where it returns.
abbrev pub Outcome : {W A : Type 0} → (W → Type 0) → (W → Type 0) → Result A × W → Type 0
Outcome Before After (err e, w) = Before w
Outcome Before After (ok a, w) = After w

abbrev pub Reaches : {W A : Type 0} → (W → Type 0) → (W → Type 0) → Job W A → Type 0
Reaches Before After m = (w : _) → Before w → Outcome Before After (m w)

module _ {W : Type 0} (Before After : W → Type 0) where
  outcome-follow :
      {A B : Type 0} (r : Result A × W) (f : A → Job W B)
      → Outcome Before Before r
      → ((a : A) → Reaches Before After (f a))
      → Outcome Before After (follow r f)
  outcome-follow (err e, w) f h k = h
  outcome-follow (ok a, w) f h k = k a w h

  pub Reaches-then :
      {A B : Type 0} (m : Job W A) (f : A → Job W B)
      → Reaches Before Before m
      → ((a : A) → Reaches Before After (f a))
      → Reaches Before After (m >>= f)
  unfolding ◌>>=◌
  Reaches-then m f h k w b = outcome-follow (m w) f (h w b) k

  pub outcome-settle :
      {A : Type 0} (Failed : W → Type 0) (r : Result A × W) (handler : Exception → W → W)
      → Outcome Before After r
      → ((e : Exception) (w : W) → Before w → Failed (handler e w))
      → After (settle r handler) ⊎ Failed (settle r handler)
  outcome-settle Failed (err e, w) handler h k = inr (k e w h)
  outcome-settle Failed (ok a, w) handler h k = inl h
