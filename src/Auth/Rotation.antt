-- ===== src/Auth/Rotation.antt =====
-- What the rotation of refresh tokens in apps/api/app/services/auth.py achieves. The key of a token
-- in Redis has its first 16 characters, which are those of the header of every token.
use replica_ai.Common.{
  ℕ, ◌*◌, ◌<◌, ◌≡◌, refl, ap, arith, ◌∙◌, String, true, some, or_default, truthy, ltb, Bool-cases,
  inl, inr, if◌then◌else◌,
}
use replica_ai.Common.Raise.{ok, err, value_error}
use replica_ai.Auth.Tokens.{Claims, is_kind}
use replica_ai.Auth.Sessions.{
  Sessions, refresh_key, new_pair, refresh_tokens, exchange, logout, store_refresh_token,
}

-- A refresh token of `subject`, before its end.
pub record IsRefresh (subject : String) (now : ℕ) (c : Claims) : Type 0 where
  pub sub : c.sub ≡ some subject
  pub kind : is_kind "refresh" c ≡ true
  pub running : now < c.expires_at

module _ (w : Sessions) where
  open w use {
    texts,
    jwt,
    lifetimes,
    texts.{Texts, get, setex, delete, elapse},
    jwt.{encode, decode},
  }

  same_key :
      (subject : String) (c d : Claims)
      → refresh_key subject (encode c) ≡ refresh_key subject (encode d)
  unfolding refresh_key
  same_key subject c d = rw (jwt.same_header c d) refl

  refresh_decoded :
      (now : ℕ) (jti subject : String) (c : Claims) (s : Texts)
      → IsRefresh subject now c
      → refresh_tokens w now jti (encode c) s
        ≡ exchange w now jti
            (encode c)
            subject
            (or_default "owner" c.role)
            (get s (refresh_key subject (encode c)))
            s
  unfolding refresh_tokens
  refresh_decoded now jti subject c s h = ground (arith, jwt.decode-encode now c h.running)

  logout_decoded :
      (now : ℕ) (subject : String) (c : Claims) (s : Texts)
      → truthy (some subject) ≡ true
      → IsRefresh subject now c
      → logout w now (encode c) s ≡ delete s (refresh_key subject (encode c))
  unfolding logout
  logout_decoded now subject c s known h = ground (arith, jwt.decode-encode now c h.running)

  -- A token that is stored for an owner is found under the key of every other token.
  found_stored :
      (subject : String) (c d : Claims) (s : Texts)
      → 0 < lifetimes.refresh_days
      → get (store_refresh_token w s (encode d) subject) (refresh_key subject (encode c))
        ≡ some (encode d)
  unfolding store_refresh_token
  found_stored subject c d s days = rw (same_key subject c d) (
      texts.get-setex s (refresh_key subject (encode d)) (lifetimes.refresh_days * 86400) (encode d)
        (omega arith))

  exchange_found :
      (now : ℕ) (jti subject stored : String) (c : Claims) (s : Texts)
      → IsRefresh subject now c
      → get s (refresh_key subject (encode c)) ≡ some stored
      → refresh_tokens w now jti (encode c) s
        ≡ exchange w now jti (encode c) subject (or_default "owner" c.role) (some stored) s
  exchange_found now jti subject stored c s h found =
      rw (refresh_decoded now jti subject c s h) (rw found refl)

  -- A refresh token is kept for its time to live: after it is stored and any number of seconds have
  -- passed in Redis, a running token of the owner is exchanged for a new pair where these are fewer
  -- than the seconds of the days that a refresh token has, and is refused as revoked or expired otherwise.
  pub stored_token_expires :
      (now n : ℕ) (jti subject : String) (c : Claims) (s : Texts)
      → 0 < lifetimes.refresh_days
      → IsRefresh subject now c
      → let later = elapse n (store_refresh_token w s (encode c) subject) in
        (refresh_tokens w now jti (encode c) later).0 ≡ (
          if ltb n (lifetimes.refresh_days * 86400)
          then ok (new_pair w now subject (or_default "owner" c.role) jti)
          else err (value_error "Refresh token has been revoked or expired"))
  unfolding store_refresh_token
  stored_token_expires now n jti subject c s days h =
      let key = refresh_key subject (encode c) in
      let time = lifetimes.refresh_days * 86400 in
      let stored = setex s key time (encode c) in
      let lives = texts.ttl-setex s key time (encode c) (omega (arith, days)) in
      let found = texts.get-setex s key time (encode c) (omega (arith, days)) in
      elim (Bool-cases (ltb n time)) [
        | inl early ↦
            let there = texts.get-elapse stored key n time lives (ground (arith, early)) ∙ found in
            rw early (
              ap (λ x. x.0) (exchange_found now jti subject (encode c) c (elapse n stored) h there))
        | inr late ↦
            let gone = texts.get-elapse_over stored key n time lives (ground (arith, late)) in
            rw late
              (ap (λ x. x.0) (refresh_decoded now jti subject c (elapse n stored) h) ∙ rw gone refl)
      ]

  -- A token that is stored for an owner is found so under the key of every other one, as long as its
  -- time to live.
  found_later :
      (n : ℕ) (subject : String) (c d : Claims) (s : Texts)
      → n < lifetimes.refresh_days * 86400
      → get (elapse n (store_refresh_token w s (encode d) subject)) (refresh_key subject (encode c))
        ≡ some (encode d)
  unfolding store_refresh_token
  found_later n subject c d s early =
      let key = refresh_key subject (encode d) in
      let time = lifetimes.refresh_days * 86400 in
      let stored = setex s key time (encode d) in
      let lives = texts.ttl-setex s key time (encode d) (omega (arith, early)) in
      rw (same_key subject c d) (
        texts.get-elapse stored key n time lives early
        ∙ texts.get-setex s key time (encode d) (omega (arith, early)))

  -- A refresh token that was exchanged is not revoked: whatever token was stored for the owner, a
  -- running refresh token of the owner is exchanged for a new pair, and afterwards the very same
  -- token is exchanged again, at any time before it expires: both with no time passing in Redis and
  -- after any number of seconds there that is less than the life of a refresh token.
  pub rotated_token_works_again :
      (now later n : ℕ) (jti jti' subject stored : String) (c : Claims) (s : Texts)
      → 0 < lifetimes.refresh_days
      → n < lifetimes.refresh_days * 86400
      → IsRefresh subject now c
      → IsRefresh subject later c
      → get s (refresh_key subject (encode c)) ≡ some stored
      → let role = or_default "owner" c.role in
        let (answer, after) = refresh_tokens w now jti (encode c) s in
        (answer ≡ ok (new_pair w now subject role jti))
        × ((refresh_tokens w later jti' (encode c) after).0
            ≡ ok (new_pair w later subject role jti'))
        × ((refresh_tokens w later jti' (encode c) (elapse n after)).0
            ≡ ok (new_pair w later subject role jti'))
  unfolding new_pair
  rotated_token_works_again now later n jti jti' subject stored c s days early h h' found =
      rw (exchange_found now jti subject stored c s h found) (
        refl,
        ap (λ x. x.0)
            (exchange_found later jti' subject _ c _ h' (found_stored subject c _ _ days)),
        ap (λ x. x.0)
            (exchange_found later jti' subject _ c _ h' (found_later n subject c _ _ early)),
      )

  -- A logout with one running refresh token of an owner ends all sessions of the owner: no refresh
  -- token of the owner is exchanged afterwards, also of another device.
  pub logout_ends_all :
      (now later : ℕ) (jti subject : String) (c d : Claims) (s : Texts)
      → truthy (some subject) ≡ true
      → IsRefresh subject now c
      → IsRefresh subject later d
      → refresh_tokens w later jti (encode d) (logout w now (encode c) s)
        ≡ (err (value_error "Refresh token has been revoked or expired"), logout w now (encode c) s)
  logout_ends_all now later jti subject c d s known h k =
      rw (logout_decoded now subject c s known h) (
        rw (refresh_decoded later jti subject d (delete s (refresh_key subject (encode c))) k) (
          rw (same_key subject d c)
            (rw (texts.get-delete s (refresh_key subject (encode c))) refl)))
