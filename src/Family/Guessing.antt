-- ===== src/Family/Guessing.antt =====
-- Admission by family code in apps/api/app/services/family_access.py: who is welcomed, and how many
-- guesses a code allows.
use replica_ai.Common.{
  ℕ, ◌≤◌, ◌<◌, ◌≡◌, ap, refl, ◌∙◌, String, true, false, Option, none, some, List, first, [], ◌∷◌,
  All, length, truthy, or_default, arith,
}
use Prim.Native.String.{◌++◌ as str_append}
use replica_ai.Common.Text.{decimal}
use replica_ai.RateLimit.{check_rate_limit, record_attempt, clear_attempts}
use replica_ai.RateLimit.Window.{record_times, check-record_times, allowed_below_max}
use replica_ai.Family.Data.{AccessRule, FamilySession, welcome, refused, Session, session_of}
use replica_ai.Family.Window.{time_refusal, has_expired, Unexpired, InWindow}
use replica_ai.Family.InForce.{time_refusal_iff, Unexpired-iff}
use replica_ai.Family.Login.{
  Owner, LoginRequest, World, is_secret, has_code, login_key, is_member, fails_secret,
  counted_refusal, login_as, login_at, family_login,
}

-- One request of a guesser, with the tables as they are at its time.
pub record Guess : Type 0 where
  pub now : ℕ
  pub request : LoginRequest
  pub owners : List Owner
  pub rules : List AccessRule

module _ (w : World) where
  open w use {redis, limits, checkpw, normal_code, normal_name, redis.{Store}}

  -- The rule is in force, and the request holds the secret that it asks for.
  pub record Knows (now : ℕ) (q : LoginRequest) (r : AccessRule) : Type 0 where
    pub unexpired : Unexpired now r.valid_until
    pub in_window : InWindow now r.time_restrictions
    pub by_secret : is_secret r.verification_method ≡ true
    pub hashed : truthy r.verification_value_hash ≡ true
    pub correct : checkpw q.verification_value (or_default "" r.verification_value_hash) ≡ true

  login_as_sound :
      (now : ℕ) (key : String) (q : LoginRequest) (r : AccessRule) (t : Store) (s : Session)
      → (login_as w now key q (some r) t).0 ≡ welcome s
      → Knows now q r × (s ≡ session_of r)
  unfolding login_as fails_secret counted_refusal
  login_as_sound now key q r t s h = (
    record {
      unexpired = (Unexpired-iff now r.valid_until).0 (ground arith);
      in_window = (time_refusal_iff now r.time_restrictions).0 (ground arith);
      by_secret = ground arith;
      hashed = ground arith;
      correct = ground arith;
    },
    ground arith,
  )

  -- What an option of a row holds, with the facts that a welcome needs.
  abbrev Welcomes : ℕ → LoginRequest → Option Owner → List AccessRule → Session → Type 0
  Welcomes now q found rules s =
      (o : Owner) × (r : AccessRule) × (found ≡ some o)
      × (first (is_member w o.id (normal_name q.grantee_name)) rules ≡ some r)
      × Knows now q r
      × (s ≡ session_of r)

  login_rule_sound :
      (now : ℕ) (key : String) (q : LoginRequest) (o : Owner) (rules : List AccessRule)
      (found : Option AccessRule) (t : Store) (s : Session)
      → first (is_member w o.id (normal_name q.grantee_name)) rules ≡ found
      → (login_as w now key q found t).0 ≡ welcome s
      → Welcomes now q (some o) rules s
  login_rule_sound now key q o rules none t s f h =
      absurd (unfold login_as counted_refusal in ground arith)
  login_rule_sound now key q o rules (some r) t s f h =
      let (knows, same) = login_as_sound now key q r t s h in (o, r, refl, f, knows, same)

  login_at_sound :
      (now : ℕ) (key : String) (q : LoginRequest) (found : Option Owner) (rules : List AccessRule)
      (t : Store) (s : Session)
      → (login_at w now key q found rules t).0 ≡ welcome s
      → Welcomes now q found rules s
  unfolding login_at
  login_at_sound now key q none rules t s h = absurd (unfold counted_refusal in ground arith)
  login_at_sound now key q (some o) rules t s h =
      login_rule_sound now key q o rules
        (first (is_member w o.id (normal_name q.grantee_name)) rules) t s refl h

  reaches_login_at :
      (now : ℕ) (q : LoginRequest) (owners : List Owner) (rules : List AccessRule) (t : Store)
      (s : Session)
      → (family_login w now q owners rules t).0 ≡ welcome s
      → let key = login_key (normal_code q.family_code) in
        (login_at w now key q
          (first (has_code (normal_code q.family_code)) owners)
          rules
          (check_rate_limit redis limits t key).1).0
        ≡ welcome s
  unfolding family_login
  reaches_login_at now q owners rules t s h = ground arith

  -- Behind every welcome stands an owner with the given code, and an active rule of that owner for
  -- the given name, which is in force, asks for a secret, and has a hash that the given value
  -- passes; the session is that rule's. So no rule that asks for a voice, a face or nothing admits.
  pub login_sound :
      (now : ℕ) (q : LoginRequest) (owners : List Owner) (rules : List AccessRule) (t : Store)
      (s : Session)
      → (family_login w now q owners rules t).0 ≡ welcome s
      → (o : Owner) × (r : AccessRule) × (first (has_code (normal_code q.family_code)) owners
          ≡ some o)
        × (first (is_member w o.id (normal_name q.grantee_name)) rules ≡ some r)
        × Knows now q r
        × (s ≡ session_of r)
  login_sound now q owners rules t s h =
      let key = login_key (normal_code q.family_code) in
      login_at_sound now key q (first (has_code (normal_code q.family_code)) owners) rules
        (check_rate_limit redis limits t key).1 s (reaches_login_at now q owners rules t s h)

  -- Requests in a row, the last one first, each at its time and against the tables of that time.
  abbrev pub login_all : List Guess → Store → Store
  login_all [] t = t
  login_all (g ∷ gs) t = (family_login w g.now g.request g.owners g.rules (login_all gs t)).1

  -- The request names a code and a member whose rule is in force and asks for a secret, and holds a
  -- wrong value.
  pub record IsWrongGuess (now : ℕ) (q : LoginRequest) (owners : List Owner)
      (rules : List AccessRule) (o : Owner) (r : AccessRule) : Type 0 where
    pub owner_found : first (has_code (normal_code q.family_code)) owners ≡ some o
    pub rule_found : first (is_member w o.id (normal_name q.grantee_name)) rules ≡ some r
    pub unexpired : has_expired now r.valid_until ≡ false
    pub in_window : time_refusal now r.time_restrictions ≡ none
    pub by_secret : is_secret r.verification_method ≡ true
    pub wrong : fails_secret w q r ≡ true

  wrong_guess :
      (now : ℕ) (q : LoginRequest) (owners : List Owner) (rules : List AccessRule) (o : Owner)
      (r : AccessRule) (t : Store)
      → IsWrongGuess now q owners rules o r
      → check_rate_limit redis limits t (login_key (normal_code q.family_code)) ≡ ((true, 0), t)
      → family_login w now q owners rules t ≡ (
        refused "Verification failed.",
        (record_attempt redis limits t (login_key (normal_code q.family_code))).1,
      )
  unfolding family_login login_at login_as counted_refusal
  wrong_guess now q owners rules o r t g c =
      simp (c, g.owner_found, g.rule_found, g.unexpired, g.in_window, g.by_secret, g.wrong)

  -- A guess by a code that finds a member, with a wrong value.
  pub record IsMiss (code : String) (g : Guess) : Type 0 where
    pub owner : Owner
    pub rule : AccessRule
    pub by_code : normal_code g.request.family_code ≡ code
    pub misses : IsWrongGuess g.now g.request g.owners g.rules owner rule

  login_all-eq-record_times :
      (window : 0 < limits.window_seconds) (code : String) (gs : List Guess) (t : Store)
      → All (IsMiss code) gs
      → length gs ≤ limits.max_attempts
      → let key = login_key code in
        login_all gs (clear_attempts redis limits t key)
        ≡ record_times redis limits (length gs) (clear_attempts redis limits t key) key
  login_all-eq-record_times window code [] t all h = refl
  login_all-eq-record_times window code (g ∷ gs) t (m, all) h =
      let key = login_key code in
      let u : Store =
        record_times redis limits (length gs) (clear_attempts redis limits t key) key in
      let door : check_rate_limit redis limits u (login_key (normal_code g.request.family_code))
          ≡ ((true, 0), u) =
        rw m.by_code
          (check-record_times redis limits window (length gs) t key (omega (arith, h))) in
      ap (λ (v : Store). (family_login w g.now g.request g.owners g.rules v).1)
        (login_all-eq-record_times window code gs t all (omega (arith, h)))
      ∙ ap (λ (p : FamilySession × Store). p.1)
          (wrong_guess g.now g.request g.owners g.rules m.owner m.rule u m.misses door)
      ∙ rw m.by_code refl

  -- From a code whose count was cleared, as many wrong guesses as the limit lock the code, where no
  -- time passes in Redis between them: the guesses may name different members, hold different values
  -- and meet different tables, as long as each names the code and finds a rule in force that asks for
  -- a secret. The next request with that code, right or wrong, by any name, against any owners and
  -- rules, is refused with the lockout time.
  pub wrong_guesses_lock :
      (window : 0 < limits.window_seconds) (code : String) (gs : List Guess) (now : ℕ)
      (q : LoginRequest) (owners : List Owner) (rules : List AccessRule) (t : Store)
      → All (IsMiss code) gs
      → length gs ≡ limits.max_attempts
      → normal_code q.family_code ≡ code
      → let locked = login_all gs (clear_attempts redis limits t (login_key code)) in
        (family_login w now q owners rules locked).0
        ≡ refused (
            str_append "Too many attempts. Try again in "
              (str_append (decimal limits.lockout_seconds) " seconds."))
  unfolding family_login
  wrong_guesses_lock window code gs now q owners rules t all many same =
      let key = login_key code in
      let e = login_all-eq-record_times window code gs t all (omega (arith, many)) in
      let denied = allowed_below_max redis limits window limits.max_attempts t key in
      rw (same, e, many) (ground (arith, denied))
