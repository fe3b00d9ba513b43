-- ===== src/Market/Tokens.antt =====
-- Tokens: дз_2/app/src/core/security.py, and `get_current_user` of
-- дз_2/app/src/core/dependencies.py. The packages `jose` and `passlib` are parameters.
pub mod Laws
use text.Mathlib.Text.{◌==◌ as str_eq}
use making_soa_homework.Base.{
  ℕ, ◌+◌, ◌*◌, ◌/◌, ◌≡◌, ◌≢◌, Bool, true, false, Option, none, some, String, ltb, not,
  if◌then◌else◌,
}
use making_soa_homework.Base.Table.{find}
use making_soa_homework.Base.Exec.{ok, err}
use making_soa_homework.Market.Models.{UserRole, User, user_key, Db}
use making_soa_homework.Market.Errors.{
  Error, api, api_error, Details, ErrorCode, validation_error, token_invalid, token_expired,
  refresh_token_invalid, Fallible, ◌>>=◌, ◌>>◌, raise_if,
}
use making_soa_homework.Market.Session.{Settings}

pub data TokenType : Type 0 where
  access refresh : TokenType

abbrev pub is_access : TokenType → Bool
is_access access = true
is_access refresh = false

-- The payload; a decoded one may lack the keys that are options. Instants are seconds.
pub record Claims : Type 0 where
  pub sub : Option ℕ
  pub role : Option UserRole
  pub kind : Option TokenType
  pub iat : ℕ
  pub exp : ℕ

-- What `jwt.decode` returns, or raises: `ExpiredSignatureError`, or another `JWTError`.
pub data Decoded : Type 0 where
  claims : Claims → Decoded
  expired broken : Decoded

-- `jwt.encode` and `jwt.decode` of the package jose, with HS256, at an instant in seconds; and
-- `pwd_context` of the package passlib, whose `hash` may refuse a password. `T` is the type of a
-- token's text, which the code passes on without looking into it.
pub record Crypto (T : Type 0) : Type 0 where
  pub encode : Claims → String → T
  pub decode : T → String → ℕ → Decoded
  pub hash : String → Option String
  pub verify : String → String → Bool

abbrev pub invalid_password : Error
invalid_password = api (record {
  error_code = validation_error;
  status_code = 400;
  message = "Validation error";
  details = Details.field "password" "Invalid password value";
})

abbrev pub secret_of : Settings → TokenType → String
secret_of settings access = settings.jwt_secret_key
secret_of settings refresh = settings.jwt_refresh_secret_key

-- The code of an error on a token of the kind; an access token has `code`.
abbrev pub code_of : TokenType → ErrorCode → ErrorCode
code_of access code = code
code_of refresh code = refresh_token_invalid

abbrev pub same_kind : TokenType → Option TokenType → Bool
same_kind access (some access) = true
same_kind refresh (some refresh) = true
same_kind _ _ = false

-- What `verify_token` does with what `jwt.decode` gave.
unfoldable pub accept : TokenType → Decoded → Fallible Claims
accept kind expired = err (api_error (code_of kind token_expired) 401 "Token expired")
accept kind broken = err (api_error (code_of kind token_invalid) 401 "Token invalid")
accept kind (claims p) =
    if same_kind kind p.kind
    then ok p
    else err (api_error (code_of kind token_invalid) 401 "Token type mismatch")

module _ {T : Type 0} (c : Crypto T) where
  unfoldable pub hash_password : String → Fallible String
  hash_password password = elim (c.hash password) [ none ↦ err invalid_password | some h ↦ ok h ]

  unfoldable pub verify_password : String → String → Bool
  verify_password = c.verify

  -- `now` and `delta` are microseconds, and `int(….timestamp())` cuts to seconds.
  unfoldable pub create_token : Settings → ℕ → ℕ → UserRole → TokenType → ℕ → T
  create_token settings now subject role kind delta =
      c.encode
        (record {
          sub = some subject;
          role = some role;
          kind = some kind;
          iat = now / 1000000;
          exp = (now + delta) / 1000000;
        })
        (secret_of settings kind)

  unfoldable pub create_access_token : Settings → ℕ → ℕ → UserRole → T
  unfolding create_token
  create_access_token settings now user_id role =
      create_token settings now user_id role access
        (settings.access_token_expires_minutes * 60000000)

  unfoldable pub create_refresh_token : Settings → ℕ → ℕ → UserRole → T
  unfolding create_token
  create_refresh_token settings now user_id role =
      create_token settings now user_id role refresh
        (settings.refresh_token_expires_days * 86400000000)

  unfoldable pub verify_token : Settings → ℕ → T → TokenType → Fallible Claims
  unfolding accept
  verify_token settings now token kind =
      accept kind (c.decode token (secret_of settings kind) (now / 1000000))

abbrev pub missing_token : Error
missing_token = api_error token_invalid 401 "Missing access token"

abbrev pub no_user : Error
no_user = api_error token_invalid 401 "User not found"

-- `query(User).filter(User.id == payload.get("sub")).one_or_none()`
abbrev pub subject : Option ℕ → Db → Option User
subject none d = none
subject (some id) d = find user_key id d.users

abbrev pub user_or : Error → Option User → Fallible User
user_or e none = err e
user_or e (some u) = ok u

-- `strip` is `str.strip`, and `is_empty` is `not`, on the texts of tokens; the credentials are those
-- of the Authorization header, if it has any.
unfoldable pub get_current_user :
    {T : Type 0} → Crypto T → (T → T) → (T → Bool) → Settings → ℕ → Option T → Db → Fallible User
get_current_user c strip is_empty settings now none d = err missing_token
get_current_user c strip is_empty settings now (some credentials) d =
    if is_empty credentials then err missing_token else do
      payload ← verify_token c settings now (strip credentials) access
      user_or no_user (subject payload.sub d)
