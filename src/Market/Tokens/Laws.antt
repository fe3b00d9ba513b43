-- ===== src/Market/Tokens/Laws.antt =====
-- A token is accepted for what it was made for, until it expires; under one secret, the two kinds do
-- not pass for each other.
use making_soa_homework.Base.{
  ℕ, ◌+◌, ◌*◌, ◌/◌, ◌≡◌, ◌≢◌, true, some, String, arith, ltb, if◌then◌else◌,
}
use making_soa_homework.Base.Exec.{ok, err}
use making_soa_homework.Market.Models.{UserRole}
use making_soa_homework.Market.Errors.{api_error, token_expired, refresh_token_invalid}
use making_soa_homework.Market.Session.{Settings}
use making_soa_homework.Market.Tokens.{
  access, refresh, Claims, claims, expired, Crypto, create_access_token, create_refresh_token,
  accept, verify_token,
}

-- What the code relies on: a token decodes under its own secret to its claims until it expires, and
-- a password is verified by its hash.
pub record CryptoLaws {T : Type 0} (c : Crypto T) : Type 0 where
  pub decode-encode :
      (p : Claims) (s : String) (now : ℕ)
      → c.decode (c.encode p s) s now ≡ (if ltb p.exp now then expired else claims p)
  pub verify-hash : (password h : String) → c.hash password ≡ some h → c.verify password h ≡ true

abbrev pub access_claims : Settings → ℕ → ℕ → UserRole → Claims
access_claims settings now user_id role = record {
  sub = some user_id;
  role = some role;
  kind = some access;
  iat = now / 1000000;
  exp = (now + settings.access_token_expires_minutes * 60000000) / 1000000;
}

abbrev pub refresh_claims : Settings → ℕ → ℕ → UserRole → Claims
refresh_claims settings now user_id role = record {
  sub = some user_id;
  role = some role;
  kind = some refresh;
  iat = now / 1000000;
  exp = (now + settings.refresh_token_expires_days * 86400000000) / 1000000;
}

module _ {T : Type 0} (c : Crypto T) (laws : CryptoLaws c) (settings : Settings)
    (now later user_id : ℕ) (role : UserRole) where
  -- An access token is accepted with its claims up to the second in which it expires, and after
  -- that refused with TOKEN_EXPIRED.
  pub verify_token-create_access_token :
      verify_token c settings later (create_access_token c settings now user_id role) access ≡ (
        if ltb
          ((now + settings.access_token_expires_minutes * 60000000) / 1000000)
          (later / 1000000)
        then err (api_error token_expired 401 "Token expired")
        else ok (access_claims settings now user_id role))
  unfolding verify_token create_access_token
  verify_token-create_access_token = ground (
    arith,
    laws.decode-encode (access_claims settings now user_id role) settings.jwt_secret_key
        (later / 1000000),
  )

  -- So it is with a refresh token, which expires as REFRESH_TOKEN_INVALID.
  pub verify_token-create_refresh_token :
      verify_token c settings later (create_refresh_token c settings now user_id role) refresh ≡ (
        if ltb
          ((now + settings.refresh_token_expires_days * 86400000000) / 1000000)
          (later / 1000000)
        then err (api_error refresh_token_invalid 401 "Token expired")
        else ok (refresh_claims settings now user_id role))
  unfolding verify_token create_refresh_token
  verify_token-create_refresh_token = ground (
    arith,
    laws.decode-encode (refresh_claims settings now user_id role) settings.jwt_refresh_secret_key
        (later / 1000000),
  )

  -- Where one secret serves both kinds, a refresh token is never accepted as an access token,
  -- and an access token is never accepted as a refresh token.
  pub verify_token_kinds :
      settings.jwt_secret_key ≡ settings.jwt_refresh_secret_key
      → (q : Claims)
      → (verify_token c settings later (create_refresh_token c settings now user_id role) access
          ≢ ok q)
        × (verify_token c settings later (create_access_token c settings now user_id role) refresh
            ≢ ok q)
  unfolding verify_token create_access_token create_refresh_token accept
  verify_token_kinds one q = (
    λ h. ground (
      arith,
      laws.decode-encode (refresh_claims settings now user_id role) settings.jwt_secret_key
          (later / 1000000),
    ),
    λ h. ground (
      arith,
      laws.decode-encode (access_claims settings now user_id role) settings.jwt_secret_key
          (later / 1000000),
    ),
  )
