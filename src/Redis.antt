-- ===== src/Redis.antt =====
-- Redis as apps/api uses it: the commands that the services send, with the documented behaviour of
-- each as a law. The store itself is not code of the repository, so it is a parameter. Values are
-- the integers that the services keep there; time passes in whole seconds.
use replica_ai.Common.{
  ℕ, ◌+◌, ◌-◌, ◌<◌, ◌≤◌, ◌≡◌, ◌≢◌, String, Option, none, some, or_default, is_some, Bool, true,
}
use replica_ai.Common.Time.{ℤ, pos, negsuc}
pub mod Table
pub mod Texts

-- `TTL` answers -2 for a key that is not there, and -1 for one that does not expire.
abbrev pub missing : ℤ
missing = negsuc 1

abbrev pub persistent : ℤ
persistent = negsuc 0

pub record Redis : Type 1 where
  pub Store : Type 0
  pub get : Store → String → Option ℕ
  pub ttl : Store → String → ℤ
  pub setex : Store → String → ℕ → ℕ → Store
  pub delete : Store → String → Store
  pub incr : Store → String → Store
  pub expire : Store → String → ℕ → Store
  -- Time passes with no command.
  pub elapse : ℕ → Store → Store
  pub ttl-missing : (s : Store) (k : String) → get s k ≡ none → ttl s k ≡ missing
  pub get-setex : (s : Store) (k : String) (t v : ℕ) → 0 < t → get (setex s k t v) k ≡ some v
  pub ttl-setex : (s : Store) (k : String) (t v : ℕ) → 0 < t → ttl (setex s k t v) k ≡ pos t
  pub get-setex_ne : (s : Store) (k j : String) (t v : ℕ) → k ≢ j → get (setex s k t v) j ≡ get s j
  pub ttl-setex_ne : (s : Store) (k j : String) (t v : ℕ) → k ≢ j → ttl (setex s k t v) j ≡ ttl s j
  pub get-delete : (s : Store) (k : String) → get (delete s k) k ≡ none
  pub get-delete_ne : (s : Store) (k j : String) → k ≢ j → get (delete s k) j ≡ get s j
  pub ttl-delete_ne : (s : Store) (k j : String) → k ≢ j → ttl (delete s k) j ≡ ttl s j
  -- `INCR` counts a missing key as 0, keeps the expiry of a key that is there, and sets none.
  pub get-incr : (s : Store) (k : String) → get (incr s k) k ≡ some (or_default 0 (get s k) + 1)
  pub ttl-incr : (s : Store) (k : String) → is_some (get s k) ≡ true → ttl (incr s k) k ≡ ttl s k
  pub get-incr_ne : (s : Store) (k j : String) → k ≢ j → get (incr s k) j ≡ get s j
  pub ttl-incr_ne : (s : Store) (k j : String) → k ≢ j → ttl (incr s k) j ≡ ttl s j
  pub get-expire : (s : Store) (k j : String) (t : ℕ) → 0 < t → get (expire s k t) j ≡ get s j
  pub ttl-expire :
      (s : Store) (k : String) (t : ℕ)
      → 0 < t
      → is_some (get s k) ≡ true
      → ttl (expire s k t) k ≡ pos t
  pub ttl-expire_ne : (s : Store) (k j : String) (t : ℕ) → k ≢ j → ttl (expire s k t) j ≡ ttl s j
  -- A key is there for its time to live, and gone from then on.
  pub get-elapse :
      (s : Store) (k : String) (n t : ℕ) → ttl s k ≡ pos t → n < t → get (elapse n s) k ≡ get s k
  pub ttl-elapse :
      (s : Store) (k : String) (n t : ℕ)
      → ttl s k ≡ pos t
      → n < t
      → ttl (elapse n s) k ≡ pos (t - n)
  pub get-elapse_over :
      (s : Store) (k : String) (n t : ℕ) → ttl s k ≡ pos t → t ≤ n → get (elapse n s) k ≡ none
  pub get-elapse_missing :
      (s : Store) (k : String) (n : ℕ) → get s k ≡ none → get (elapse n s) k ≡ none
