-- ===== src/Auth/Emails.antt =====
-- Emails in apps/api/app/services/auth.py: set-up compares them as they are written, sign-in in lower
-- case.
use replica_ai.Common.{
  ℕ, ◌≡◌, refl, arith, String, Bool, true, false, Option, none, List, [], ◌∷◌, ◌++◌, first, select,
  str_eq,
}
use replica_ai.Common.Raise.{Result, ok, err, other_error}
use replica_ai.Auth.Accounts.{Owner, SetupRequest, has_email, setup_owner, new_owner}
use replica_ai.Auth.Google.{has_lower_email}
use replica_ai.Common.Raise.{one_or_none}
use replica_ai.Auth.Verify.{Gate, VerificationType, login_owner}

setup_accepts :
    (hashpw : String → String) (id : String) (q : SetupRequest) (owners : List Owner)
    → first (has_email q.email) owners ≡ none
    → setup_owner hashpw id q owners
      ≡ (ok (new_owner hashpw id q), owners ++ new_owner hashpw id q ∷ [])
unfolding setup_owner
setup_accepts hashpw id q owners free = ground arith

first-append_none :
    (test : Owner → Bool) (owners : List Owner) (o : Owner)
    → first test owners ≡ none
    → test o ≡ false
    → first test (owners ++ o ∷ []) ≡ none
first-append_none test [] o h k = ground arith
first-append_none test (x ∷ owners) o h k = ground (arith, first-append_none test owners o)

-- The last two rows of a table both pass.
two_pass :
    (test : Owner → Bool) (owners : List Owner) (a b : Owner)
    → test a ≡ true
    → test b ≡ true
    → select test ((owners ++ a ∷ []) ++ b ∷ []) ≡ select test owners ++ a ∷ b ∷ []
two_pass test [] a b h k = ground arith
two_pass test (x ∷ owners) a b h k = ground (arith, two_pass test owners a b)

abbrev too_many : Result (Option Owner)
too_many = err (other_error "Multiple rows were found when one or none was required")

two_raise : (rows : List Owner) (a b : Owner) → one_or_none (rows ++ a ∷ b ∷ []) ≡ too_many
unfolding one_or_none
two_raise [] a b = refl
two_raise (x ∷ []) a b = refl
two_raise (x ∷ y ∷ rows) a b = refl

email_differs :
    (hashpw : String → String) (id : String) (q q' : SetupRequest)
    → str_eq q.email q'.email ≡ false
    → has_email q'.email (new_owner hashpw id q) ≡ false
unfolding new_owner
email_differs hashpw id q q' ne = ne

email_matches :
    (w : Gate) (hashpw : String → String) (id : String) (q : SetupRequest) (email : String)
    → str_eq (w.forms.lower q.email) (w.forms.lower (w.forms.strip email)) ≡ true
    → has_lower_email w.forms (w.forms.lower (w.forms.strip email)) (new_owner hashpw id q) ≡ true
unfolding new_owner
email_matches w hashpw id q email low = low

login_raises :
    (w : Gate) (now : ℕ) (jti email : String) (kind : VerificationType) (value : Option String)
    (owners : List Owner) (s : w.redis.Store)
    → one_or_none (select (has_lower_email w.forms (w.forms.lower (w.forms.strip email))) owners)
      ≡ too_many
    → (login_owner w now jti email kind value owners s).0
      ≡ err (other_error "Multiple rows were found when one or none was required")
unfolding login_owner
login_raises w now jti email kind value owners s h = rw h refl

-- Two set-ups with emails that differ, but are equal in lower case, are both accepted. From then on
-- a sign-in by that email raises an exception for either owner, whatever is shown.
pub case_twins_cannot_login :
    (w : Gate) (hashpw : String → String) (id id' : String) (q q' : SetupRequest)
    (owners : List Owner) (now : ℕ) (jti email : String) (kind : VerificationType)
    (value : Option String) (s : w.redis.Store)
    → first (has_email q.email) owners ≡ none
    → first (has_email q'.email) owners ≡ none
    → str_eq q.email q'.email ≡ false
    → str_eq (w.forms.lower q.email) (w.forms.lower (w.forms.strip email)) ≡ true
    → str_eq (w.forms.lower q'.email) (w.forms.lower (w.forms.strip email)) ≡ true
    → let (first_answer, owners1) = setup_owner hashpw id q owners in
      let (second_answer, owners2) = setup_owner hashpw id' q' owners1 in
      (first_answer ≡ ok (new_owner hashpw id q))
      × (second_answer ≡ ok (new_owner hashpw id' q'))
      × ((login_owner w now jti email kind value owners2 s).0
          ≡ err (other_error "Multiple rows were found when one or none was required"))
case_twins_cannot_login w hashpw id id' q q' owners now jti email kind value s free free' ne low
      low' =
    let o = new_owner hashpw id q in
    let o' = new_owner hashpw id' q' in
    let test = has_lower_email w.forms (w.forms.lower (w.forms.strip email)) in
    rw (setup_accepts hashpw id q owners free) (
      rw
        (setup_accepts hashpw id' q' (owners ++ o ∷ [])
          (first-append_none (has_email q'.email) owners o free' (email_differs hashpw id q q' ne)))
        (
          refl,
          refl,
          login_raises w now jti email kind value ((owners ++ o ∷ []) ++ o' ∷ []) s (
              rw
                (two_pass test owners o o' (email_matches w hashpw id q email low)
                  (email_matches w hashpw id' q' email low'))
                (two_raise (select test owners) o o')),
        ))
