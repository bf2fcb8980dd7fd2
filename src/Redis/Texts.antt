-- ===== src/Redis/Texts.antt =====
-- Redis where the services keep texts in it: the refresh tokens of apps/api/app/services/auth.py, and
-- the tasks of apps/ai/app/core/task_tracker.py, under keys that no counter of Redis.antt has. The
-- commands are a parameter, with their documented laws; the texts are of any type, so that what a
-- library writes as a text can be kept apart from other texts.
use replica_ai.Common.{
  ℕ, ◌-◌, ◌<◌, ◌≤◌, ◌≡◌, ◌≢◌, refl, ap, leb, String, Option, none, some, eq_iff, arith, str_eq,
  if◌then◌else◌,
}
use replica_ai.Common.Time.{ℤ, pos, negsuc}

pub record ValueRedis (Value : Type 0) : Type 1 where
  pub Texts : Type 0
  pub get : Texts → String → Option Value
  pub setex : Texts → String → ℕ → Value → Texts
  pub delete : Texts → String → Texts
  pub ttl : Texts → String → ℤ
  -- Time passes with no command.
  pub elapse : ℕ → Texts → Texts
  pub get-setex :
      (s : Texts) (k : String) (t : ℕ) (v : Value) → 0 < t → get (setex s k t v) k ≡ some v
  pub get-setex_ne :
      (s : Texts) (k j : String) (t : ℕ) (v : Value) → k ≢ j → get (setex s k t v) j ≡ get s j
  pub get-delete : (s : Texts) (k : String) → get (delete s k) k ≡ none
  pub get-delete_ne : (s : Texts) (k j : String) → k ≢ j → get (delete s k) j ≡ get s j
  pub ttl-setex :
      (s : Texts) (k : String) (t : ℕ) (v : Value) → 0 < t → ttl (setex s k t v) k ≡ pos t
  -- A key is there for its time to live, and gone from then on.
  pub get-elapse :
      (s : Texts) (k : String) (n t : ℕ) → ttl s k ≡ pos t → n < t → get (elapse n s) k ≡ get s k
  pub get-elapse_over :
      (s : Texts) (k : String) (n t : ℕ) → ttl s k ≡ pos t → t ≤ n → get (elapse n s) k ≡ none

abbrev pub TextRedis : Type 1
TextRedis = ValueRedis String

-- A table of values with the seconds that each has left, which meets the laws.
pub record Timed (Value : Type 0) : Type 0 where
  pub value : Value
  pub left : ℕ

module _ {Value : Type 0} where
  abbrev put :
      (String → Option (Timed Value))
      → String
      → Option (Timed Value)
      → String
      → Option (Timed Value)
  put s k v j = if str_eq k j then v else s j

  abbrev value_of : Option (Timed Value) → Option Value
  value_of none = none
  value_of (some e) = some e.value

  abbrev left_of : Option (Timed Value) → ℤ
  left_of none = negsuc 1
  left_of (some e) = pos e.left

  abbrev later : ℕ → Option (Timed Value) → Option (Timed Value)
  later n none = none
  later n (some e) = if leb e.left n then none else some (record e { left = e.left - n })

  pub get-put :
      (s : String → Option (Timed Value)) (k : String) (v : Option (Timed Value)) → put s k v k ≡ v
  get-put s k v = ground (arith, eq_iff k k)

  pub get-put_ne :
      (s : String → Option (Timed Value)) (k j : String) (v : Option (Timed Value))
      → k ≢ j
      → put s k v j ≡ s j
  get-put_ne s k j v ne = ground (arith, eq_iff k j)

  pub later_in_time :
      (n t : ℕ) (e : Option (Timed Value))
      → left_of e ≡ pos t
      → n < t
      → value_of (later n e) ≡ value_of e
  later_in_time n t none h k = cc
  later_in_time n t (some e) h k = ground arith

  pub later_over :
      (n t : ℕ) (e : Option (Timed Value)) → left_of e ≡ pos t → t ≤ n → value_of (later n e) ≡ none
  later_over n t none h k = refl
  later_over n t (some e) h k = ground arith

abbrev pub value_table : (Value : Type 0) → ValueRedis Value
value_table Value = record {
  Texts = String → Option (Timed Value);
  get = λ s k. value_of (s k);
  setex = λ s k t v. put s k (some (record { value = v; left = t }));
  delete = λ s k. put s k none;
  ttl = λ s k. left_of (s k);
  elapse = λ n s k. later n (s k);
  get-setex = λ s k t v h. ap value_of (get-put s k (some (record { value = v; left = t })));
  get-setex_ne =
      λ s k j t v ne. ap value_of (get-put_ne s k j (some (record { value = v; left = t })) ne);
  get-delete = λ s k. ap value_of (get-put s k none);
  get-delete_ne = λ s k j ne. ap value_of (get-put_ne s k j none ne);
  ttl-setex = λ s k t v h. ap left_of (get-put s k (some (record { value = v; left = t })));
  get-elapse = λ s k n t h before. later_in_time n t (s k) h before;
  get-elapse_over = λ s k n t h over. later_over n t (s k) h over;
}

abbrev pub text_table : TextRedis
text_table = value_table String
