-- ===== src/Auth/Sessions.antt =====
-- Refresh tokens in apps/api/app/services/auth.py: `store_refresh_token`, `refresh_tokens`, `logout`.
use Prim.Native.String.{◌++◌ as str_append}
use replica_ai.Common.{ℕ, ◌*◌, String, Option, none, some, or_default, truthy, if◌then◌else◌}
use replica_ai.Common.Raise.{Result, ok, err, value_error}
use replica_ai.Common.Text.{take_chars}
use replica_ai.Redis.Texts.{TextRedis}
use replica_ai.Auth.Tokens.{
  Claims, Jwt, Lifetimes, access_claims, refresh_claims, is_kind, key_error,
}

pub record TokenPair : Type 0 where
  pub access_token : String
  pub refresh_token : String

-- `f"refresh:{subject}:{token[:16]}"`
unfoldable pub refresh_key : String → String → String
refresh_key subject token =
    str_append "refresh:" (str_append subject (str_append ":" (take_chars 16 token)))

-- What the functions share: Redis, the token library and the lifetimes.
pub record Sessions : Type 1 where
  pub texts : TextRedis
  pub jwt : Jwt
  pub lifetimes : Lifetimes

module _ (w : Sessions) where
  open w use {texts, jwt, lifetimes, texts.{Texts, get, setex, delete}, jwt.{encode, decode}}

  -- The tokens of a session that begins now; `jti` is drawn.
  unfoldable pub new_pair : ℕ → String → String → String → TokenPair
  new_pair now subject role jti = record {
    access_token = encode (access_claims lifetimes now subject role none);
    refresh_token = encode (refresh_claims lifetimes now subject role jti);
  }

  unfoldable pub store_refresh_token : Texts → String → String → Texts
  store_refresh_token s token owner_id =
      setex s (refresh_key owner_id token) (lifetimes.refresh_days * 86400) token

  -- The new pair in exchange for a token of `subject` that was verified.
  abbrev pub exchange :
      ℕ → String → String → String → String → Option String → Texts → Result TokenPair × Texts
  exchange now jti token subject role none s =
      (err (value_error "Refresh token has been revoked or expired"), s)
  exchange now jti token subject role (some stored) s =
      let pair = new_pair now subject role jti in
      (
        ok pair,
        store_refresh_token (delete s (refresh_key subject token)) pair.refresh_token subject,
      )

  abbrev pub exchange_claims : ℕ → String → String → Claims → Texts → Result TokenPair × Texts
  exchange_claims now jti token c s = elim c.sub [
    | none ↦ (err key_error, s)
    | some subject ↦
        exchange now jti token subject (or_default "owner" c.role)
          (get s (refresh_key subject token)) s
  ]

  -- `refresh_tokens`; the text of the library's exception is not modelled.
  unfoldable pub refresh_tokens : ℕ → String → String → Texts → Result TokenPair × Texts
  refresh_tokens now jti token s = elim (decode now token) [
    | none ↦ (err (value_error "Invalid or expired refresh token"), s)
    | some c ↦
        if is_kind "refresh" c
        then exchange_claims now jti token c s
        else (err (value_error "Token is not a refresh token"), s)
  ]

  -- `logout`, which always answers with success.
  unfoldable pub logout : ℕ → String → Texts → Texts
  logout now token s = elim (decode now token) [
    | none ↦ s
    | some c ↦ if truthy c.sub then delete s (refresh_key (or_default "" c.sub) token) else s
  ]
