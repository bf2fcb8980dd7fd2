-- ===== src/Auth/Kinds.antt =====
-- The kinds of tokens of apps/api/app/core/security.py are kept apart by their uses in
-- apps/api/app/core/auth_guard.py and apps/api/app/services/auth.py.
use replica_ai.Common.{
  ℕ, ◌<◌, ◌≡◌, refl, arith, String, false, Option, none, List, contains, if◌then◌else◌,
}
use replica_ai.Common.Raise.{err, value_error}
use replica_ai.Instances.{Instance}
use replica_ai.Auth.Tokens.{
  Claims, Jwt, Lifetimes, is_kind, access_claims, refresh_claims, connect_claims, require_auth,
  passed, denied, Identity, require_role,
}
use replica_ai.Auth.Sessions.{Sessions, refresh_tokens}
use replica_ai.Auth.Accounts.{Owner}
use replica_ai.Auth.Connection.{ConnectRequest, connect_instance}

-- A token that is not of the kind a use asks for.
other_kind_denied :
    (jwt : Jwt) (now : ℕ) (c : Claims)
    → now < c.expires_at
    → is_kind "access" c ≡ false
    → require_auth jwt now (jwt.encode c) ≡ denied 401
unfolding require_auth
other_kind_denied jwt now c h k = ground (arith, jwt.decode-encode now c h)

other_kind_not_exchanged :
    (w : Sessions) (now : ℕ) (jti : String) (c : Claims) (s : w.texts.Texts)
    → now < c.expires_at
    → is_kind "refresh" c ≡ false
    → refresh_tokens w now jti (w.jwt.encode c) s
      ≡ (err (value_error "Token is not a refresh token"), s)
unfolding refresh_tokens
other_kind_not_exchanged w now jti c s h k = ground (arith, w.jwt.decode-encode now c h)

other_kind_not_connected :
    (jwt : Jwt) (l : Lifetimes) (now : ℕ) (id : String) (q : ConnectRequest) (c : Claims)
    (owners : List Owner) (rows : List Instance)
    → q.token ≡ jwt.encode c
    → now < c.expires_at
    → is_kind "connect" c ≡ false
    → connect_instance jwt l now id q owners rows
      ≡ (err (value_error "Token is not a connection token"), rows)
unfolding connect_instance
other_kind_not_connected jwt l now id q c owners rows e h k =
    ground (arith, jwt.decode-encode now c h)

abbrev holder : String → String → Option String → Identity
holder subject role instance_id = record {
  subject_id = subject;
  role = role;
  instance_id = instance_id;
  rule_id = none;
  access_level = none;
  grantee_name = none;
}

access_passed :
    (jwt : Jwt) (l : Lifetimes) (now made : ℕ) (subject role : String) (instance_id : Option String)
    → now < (access_claims l made subject role instance_id).expires_at
    → require_auth jwt now (jwt.encode (access_claims l made subject role instance_id))
      ≡ passed (holder subject role instance_id)
unfolding require_auth access_claims
access_passed jwt l now made subject role instance_id h =
    ground (arith, jwt.decode-encode now (access_claims l made subject role instance_id) h)

module _ (w : Sessions) (now : ℕ) (subject jti : String) where
  open w use {jwt, lifetimes}

  -- The three kinds of tokens, as the service makes them for any subject, have separate uses: while
  -- they run, neither a refresh token nor a connection token passes the guard of a request; neither
  -- an access token nor a connection token is exchanged for new tokens; and a request to connect an
  -- instance by an access token or a refresh token is refused, with no row written.
  pub kinds_separate :
      (made : ℕ) (role : String) (instance_id : Option String) (s : w.texts.Texts) (id : String)
      (by_access by_refresh : ConnectRequest) (owners : List Owner) (rows : List Instance)
      → let access = access_claims lifetimes made subject role instance_id in
        let refresh = refresh_claims lifetimes made subject role jti in
        let connect = connect_claims lifetimes made subject jti in
        now < access.expires_at
        → now < refresh.expires_at
        → now < connect.expires_at
        → by_access.token ≡ jwt.encode access
        → by_refresh.token ≡ jwt.encode refresh
        → (require_auth jwt now (jwt.encode refresh) ≡ denied 401)
          × (require_auth jwt now (jwt.encode connect) ≡ denied 401)
          × (refresh_tokens w now jti (jwt.encode access) s
              ≡ (err (value_error "Token is not a refresh token"), s))
          × (refresh_tokens w now jti (jwt.encode connect) s
              ≡ (err (value_error "Token is not a refresh token"), s))
          × (connect_instance jwt lifetimes now id by_access owners rows
              ≡ (err (value_error "Token is not a connection token"), rows))
          × (connect_instance jwt lifetimes now id by_refresh owners rows
              ≡ (err (value_error "Token is not a connection token"), rows))
  unfolding access_claims refresh_claims connect_claims
  kinds_separate made role instance_id s id q q' owners rows a r c e e' = (
    other_kind_denied jwt now _ r refl,
    other_kind_denied jwt now _ c refl,
    other_kind_not_exchanged w now jti _ s a refl,
    other_kind_not_exchanged w now jti _ s c refl,
    other_kind_not_connected jwt lifetimes now id q _ owners rows e a refl,
    other_kind_not_connected jwt lifetimes now id q' _ owners rows e' r refl,
  )

  -- An access token passes the guard until it expires, with the subject and the role that it was
  -- made for, and the guard of a role lets it through exactly if the role is one of those allowed.
  pub access_guarded :
      (made : ℕ) (role : String) (instance_id : Option String) (allowed : List String)
      → let access = access_claims lifetimes made subject role instance_id in
        now < access.expires_at
        → (i : Identity) × (require_auth jwt now (jwt.encode access) ≡ passed i)
          × (i.subject_id ≡ subject)
          × (i.role ≡ role)
          × (i.instance_id ≡ instance_id)
          × (require_role jwt allowed now (jwt.encode access)
              ≡ (if contains allowed role then passed i else denied 403))
  unfolding require_role
  access_guarded made role instance_id allowed h = (
    holder subject role instance_id,
    access_passed jwt lifetimes now made subject role instance_id h,
    refl,
    refl,
    refl,
    rw (access_passed jwt lifetimes now made subject role instance_id h) refl,
  )
