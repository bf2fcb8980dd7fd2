-- ===== src/Family/Uses.antt =====
-- How often invites of apps/api/app/services/family_access.py admit.
use replica_ai.Common.{
  ℕ, ◌+◌, ◌-◌, ◌≤◌, ◌≡◌, String, Bool, str_eq, if◌then◌else◌, true, Option, none, some, List, [],
  ◌∷◌, first, update_first, arith, inl, inr, Option-cases,
}
use replica_ai.Family.Data.{AccessRule, FamilyInvite, FamilySession, welcome, refused}
use replica_ai.Family.Invites.{use_once, matches_invite, admit, validate_family_access}

abbrev has_id : String → FamilyInvite → Bool
has_id id inv = str_eq inv.id id

-- The uses that the invite with an identifier, the key of the table, has left.
abbrev pub uses_of : String → List FamilyInvite → ℕ
uses_of id [] = 0
uses_of id (inv ∷ invites) = (if has_id id inv then inv.uses_remaining else 0) + uses_of id invites

-- A welcome, where the invite that matched has the identifier.
abbrev pub admits_by : String → Option FamilyInvite → FamilySession → ℕ
admits_by id none answer = 0
admits_by id (some inv) (refused m) = 0
admits_by id (some inv) (welcome s) = if has_id id inv then 1 else 0

uses-use_once :
    (inv : FamilyInvite)
    → ((use_once inv).uses_remaining ≡ inv.uses_remaining - 1) × ((use_once inv).id ≡ inv.id)
unfolding use_once
uses-use_once inv = (ground arith, ground arith)

pub record Attempt : Type 0 where
  pub now : ℕ
  pub token : String
  pub value : Option String
  -- The rules as they are at the time of the attempt.
  pub rules : List AccessRule

module _ (checkpw : String → String → Bool) where
  matched_has_use :
      (now : ℕ) (token : String) (inv : FamilyInvite)
      → matches_invite checkpw now token inv ≡ true
      → 1 ≤ inv.uses_remaining
  unfolding matches_invite
  matched_has_use now token inv h = ground arith

  uses-update_first :
      (id : String) (now : ℕ) (token : String) (invites : List FamilyInvite) (inv : FamilyInvite)
      → first (matches_invite checkpw now token) invites ≡ some inv
      → uses_of id (update_first (matches_invite checkpw now token) use_once invites)
          + (if has_id id inv then 1 else 0)
        ≡ uses_of id invites
  uses-update_first id now token [] inv h = cc
  uses-update_first id now token (x ∷ invites) inv h = ground (
    arith,
    matched_has_use now token x,
    uses-use_once x,
    uses-update_first id now token invites inv,
  )

  -- Every admission spends one use of the invite that matched and of no other, and every refusal
  -- leaves the invites as they are.
  pub admission_spends_use :
      (id : String) (now : ℕ) (token : String) (value : Option String) (rules : List AccessRule)
      (invites : List FamilyInvite)
      → let (answer, invites') = validate_family_access checkpw now token value rules invites in
        admits_by id (first (matches_invite checkpw now token) invites) answer + uses_of id invites'
        ≡ uses_of id invites
  unfolding validate_family_access admit
  admission_spends_use id now token value rules invites =
      elim (Option-cases (first (matches_invite checkpw now token) invites)) [
        | inl e ↦ ground arith
        | inr (inv, e) ↦ ground (arith, uses-update_first id now token invites inv)
      ]

  -- The admissions by the invite with an identifier over a sequence of attempts, and the invites
  -- that are left.
  pub attempt_all : String → List Attempt → List FamilyInvite → ℕ × List FamilyInvite
  attempt_all id [] invites = (0, invites)
  attempt_all id (t ∷ ts) invites =
      let (answer, invites') =
        validate_family_access checkpw t.now t.token t.value t.rules invites in
      let (n, last) = attempt_all id ts invites' in
      (admits_by id (first (matches_invite checkpw t.now t.token) invites) answer + n, last)

  -- Over any attempts at any times, also where rules change between them, and for every invite: the
  -- admissions by the invite with that identifier and the uses that it has left add up to the uses
  -- that it began with. So no invite admits more often than it was made for.
  pub admissions_bounded :
      (id : String) (ts : List Attempt) (invites : List FamilyInvite)
      → let (n, last) = attempt_all id ts invites in n + uses_of id last ≡ uses_of id invites
  unfolding attempt_all
  admissions_bounded id [] invites = omega arith
  admissions_bounded id (t ∷ ts) invites =
      let (answer, invites') =
        validate_family_access checkpw t.now t.token t.value t.rules invites in
      omega (
        arith,
        admission_spends_use id t.now t.token t.value t.rules invites,
        admissions_bounded id ts invites',
      )
