-- ===== src/Market/Auth.antt =====
-- Registration, login and refresh: `register_user`, `login_user` and `refresh_token` of
-- дз_2/app/src/main.py.
pub mod Accounts
use text.Mathlib.Text.{◌==◌ as str_eq}
use making_soa_homework.Base.{
  ℕ, Bool, true, false, Option, none, some, String, List, [], ◌∷◌, if◌then◌else◌,
}
use making_soa_homework.Base.Exec.{ok, err, pure, ask, write, ◌>>=◌, ◌>>◌}
use making_soa_homework.Market.Models.{UserRole, role_user, User, Db}
use making_soa_homework.Market.Errors
use making_soa_homework.Market.Errors.{
  Error, api, api_error, Details, validation_error, token_invalid, refresh_token_invalid, Fallible,
}
use making_soa_homework.Market.Session.{Settings, Context, Body, Handler, query, and_commit}
use making_soa_homework.Market.Tokens.{
  Crypto, refresh, subject, user_or, hash_password, verify_password, create_access_token,
  create_refresh_token, verify_token,
}

pub record AuthRegisterRequest : Type 0 where
  pub email : String
  pub password : String
  pub role : Option UserRole

pub record TokenResponse (T : Type 0) : Type 0 where
  pub access_token : T
  pub refresh_token : T
  pub token_type : String

-- `query(User).filter(User.email == email).one_or_none()`; the column is unique.
unfoldable pub find_email : String → List User → Option User
find_email email [] = none
find_email email (u ∷ t) = if str_eq u.email email then some u else find_email email t

abbrev pub email_taken : Error
email_taken = api (record {
  error_code = validation_error;
  status_code = 400;
  message = "Email already registered";
  details = Details.field "email" "Already exists";
})

abbrev pub bad_credentials : Error
bad_credentials = api_error token_invalid 401 "Invalid credentials"

unfoldable pub check_new_email : String → List User → Fallible (Unit {0})
unfolding find_email
check_new_email email t = elim (find_email email t) [ none ↦ ok tt | some u ↦ err email_taken ]

abbrev pub role_or : UserRole → Option UserRole → UserRole
role_or r none = r
role_or r (some s) = s

module _ {T : Type 0} (c : Crypto T) where
  unfoldable pub register_body : Context → AuthRegisterRequest → Body User
  register_body x payload = do
    hashed ← ask (λ d. hash_password c payload.password)
    let user : User = record {
      id = x.new_id 0;
      email = payload.email;
      hashed_password = hashed;
      role = role_or role_user payload.role;
    }
    write (λ d. record d { users = user ∷ d.users })
    pure user

  unfoldable pub register_user : Context → AuthRegisterRequest → Handler User
  register_user x payload = do
    query (λ d. check_new_email payload.email d.users)
    and_commit (register_body x payload)

  abbrev pub tokens_of : Settings → ℕ → User → TokenResponse T
  tokens_of settings now user = record {
    access_token = create_access_token c settings now user.id user.role;
    refresh_token = create_refresh_token c settings now user.id user.role;
    token_type = "bearer";
  }

  unfoldable pub log_in : Settings → ℕ → String → String → Db → Fallible (TokenResponse T)
  unfolding find_email verify_password
  log_in settings now email password d = elim (find_email email d.users) [
    | none ↦ err bad_credentials
    | some user ↦
        if verify_password c password user.hashed_password
        then ok (tokens_of settings now user)
        else err bad_credentials
  ]

  unfoldable pub login_user : Settings → ℕ → String → String → Handler (TokenResponse T)
  login_user settings now email password = query (log_in settings now email password)

  -- The refresh token itself is handed back.
  unfoldable pub renew : Settings → ℕ → T → Db → Fallible (TokenResponse T)
  renew settings now token d = Errors.◌>>=◌ (verify_token c settings now token refresh) λ payload.
      Errors.◌>>=◌
        (user_or (api_error refresh_token_invalid 401 "User not found") (subject payload.sub d))
        λ user. ok (record {
          access_token = create_access_token c settings now user.id user.role;
          refresh_token = token;
          token_type = "bearer";
        })

  unfoldable pub refresh_token : Settings → ℕ → T → Handler (TokenResponse T)
  refresh_token settings now token = query (renew settings now token)
