-- ===== src/Redis/Table.antt =====
-- A store that behaves as the laws of Redis say: a function from keys to values with the seconds
-- that are left. It shows that the laws can be met, and lets the examples run.
use replica_ai.Common.{
  ℕ, ◌+◌, ◌-◌, ◌<◌, ◌≤◌, ◌≡◌, ◌≢◌, refl, String, Option, none, some, or_default, is_some, true,
  arith, str_eq, eq_iff, leb, if◌then◌else◌, ap, ◌∙◌,
}
use replica_ai.Common.Time.{ℤ, pos}
use replica_ai.Redis.{Redis, missing, persistent}

pub record Entry : Type 0 where
  pub value : ℕ
  pub left : Option ℕ

abbrev Table : Type 0
Table = String → Option Entry

abbrev value_of : Option Entry → Option ℕ
value_of none = none
value_of (some e) = some e.value

abbrev ttl_of : Option Entry → ℤ
ttl_of none = missing
ttl_of (some e) = elim e.left [ none ↦ persistent | some t ↦ pos t ]

abbrev put : Table → String → Option Entry → Table
put s k e j = if str_eq k j then e else s j

abbrev incremented : Option Entry → Entry
incremented none = record { value = 1; left = none }
incremented (some e) = record e { value = e.value + 1 }

abbrev limited : ℕ → Option Entry → Option Entry
limited t none = none
limited t (some e) = some (record e { left = some t })

abbrev aged : ℕ → Option Entry → Option Entry
aged n none = none
aged n (some e) = elim e.left [
  | none ↦ some e
  | some t ↦ if leb t n then none else some (record e { left = some (t - n) })
]

pub at_self : (s : Table) (k : String) (e : Option Entry) → put s k e k ≡ e
at_self s k e = ground (arith, eq_iff k k)

pub at_other : (s : Table) (k j : String) (e : Option Entry) → k ≢ j → put s k e j ≡ s j
at_other s k j e ne = ground (arith, eq_iff k j)

pub ttl_of-missing : (e : Option Entry) → value_of e ≡ none → ttl_of e ≡ missing
ttl_of-missing none h = refl
ttl_of-missing (some e) h = cc

pub value_incremented :
    (e : Option Entry) → value_of (some (incremented e)) ≡ some (or_default 0 (value_of e) + 1)
value_incremented none = ground arith
value_incremented (some e) = refl

pub ttl_incremented :
    (e : Option Entry) → is_some (value_of e) ≡ true → ttl_of (some (incremented e)) ≡ ttl_of e
ttl_incremented none h = cc
ttl_incremented (some e) h = refl

value_limited : (t : ℕ) (e : Option Entry) → value_of (limited t e) ≡ value_of e
value_limited t none = refl
value_limited t (some e) = refl

pub ttl_limited :
    (t : ℕ) (e : Option Entry) → is_some (value_of e) ≡ true → ttl_of (limited t e) ≡ pos t
ttl_limited t none h = cc
ttl_limited t (some e) h = refl

pub value_aged :
    (n t : ℕ) (e : Option Entry) → ttl_of e ≡ pos t → n < t → value_of (aged n e) ≡ value_of e
value_aged n t none h l = refl
value_aged n t (some e) h l = ground arith

pub ttl_aged :
    (n t : ℕ) (e : Option Entry) → ttl_of e ≡ pos t → n < t → ttl_of (aged n e) ≡ pos (t - n)
ttl_aged n t none h l = cc
ttl_aged n t (some e) h l = ground arith

pub value_aged_over :
    (n t : ℕ) (e : Option Entry) → ttl_of e ≡ pos t → t ≤ n → value_of (aged n e) ≡ none
value_aged_over n t none h l = refl
value_aged_over n t (some e) h l = ground arith

pub value_aged_missing : (n : ℕ) (e : Option Entry) → value_of e ≡ none → value_of (aged n e) ≡ none
value_aged_missing n none h = refl
value_aged_missing n (some e) h = cc

pub limited_other :
    (s : Table) (k j : String) (t : ℕ) → value_of (put s k (limited t (s k)) j) ≡ value_of (s j)
limited_other s k j t = ground (arith, eq_iff k j, value_limited t (s k))

abbrev pub table : Redis
table = record {
  Store = Table;
  get = λ s k. value_of (s k);
  ttl = λ s k. ttl_of (s k);
  setex = λ s k t v. put s k (some (record { value = v; left = some t }));
  delete = λ s k. put s k none;
  incr = λ s k. put s k (some (incremented (s k)));
  expire = λ s k t. put s k (limited t (s k));
  elapse = λ n s k. aged n (s k);
  ttl-missing = λ s k h. ttl_of-missing (s k) h;
  get-setex = λ s k t v h. ap value_of (at_self s k (some (record { value = v; left = some t })));
  ttl-setex = λ s k t v h. ap ttl_of (at_self s k (some (record { value = v; left = some t })));
  get-setex_ne =
      λ s k j t v ne. ap value_of (at_other s k j (some (record { value = v; left = some t })) ne);
  ttl-setex_ne =
      λ s k j t v ne. ap ttl_of (at_other s k j (some (record { value = v; left = some t })) ne);
  get-delete = λ s k. ap value_of (at_self s k none);
  get-delete_ne = λ s k j ne. ap value_of (at_other s k j none ne);
  ttl-delete_ne = λ s k j ne. ap ttl_of (at_other s k j none ne);
  get-incr = λ s k. ap value_of (at_self s k (some (incremented (s k)))) ∙ value_incremented (s k);
  ttl-incr = λ s k h. ap ttl_of (at_self s k (some (incremented (s k)))) ∙ ttl_incremented (s k) h;
  get-incr_ne = λ s k j ne. ap value_of (at_other s k j (some (incremented (s k))) ne);
  ttl-incr_ne = λ s k j ne. ap ttl_of (at_other s k j (some (incremented (s k))) ne);
  get-expire = λ s k j t h. limited_other s k j t;
  ttl-expire = λ s k t h x. ap ttl_of (at_self s k (limited t (s k))) ∙ ttl_limited t (s k) x;
  ttl-expire_ne = λ s k j t ne. ap ttl_of (at_other s k j (limited t (s k)) ne);
  get-elapse = λ s k n t h l. value_aged n t (s k) h l;
  ttl-elapse = λ s k n t h l. ttl_aged n t (s k) h l;
  get-elapse_over = λ s k n t h l. value_aged_over n t (s k) h l;
  get-elapse_missing = λ s k n h. value_aged_missing n (s k) h;
}
