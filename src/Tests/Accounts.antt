-- ===== src/Tests/Accounts.antt =====
-- Tokens and accounts: a toy cryptography that keeps the laws, and the theorems on it.
use text.Mathlib.Text.{◌==◌ as str_eq}
use text.Mathlib.TextEquality.{eq_iff}
use text.Mathlib.TextPositions.{eq_refl}
use making_soa_homework.Base.{
  ◌≡◌, refl, Bool, false, none, some, String, ◌∷◌, arith, ltb, if◌then◌else◌,
}
use making_soa_homework.Base.Table.{find}
use making_soa_homework.Base.Exec.{ok, ◌>>=◌}
use making_soa_homework.Market.Models.{role_user, User, Db}
use making_soa_homework.Market.Session.{query, and_commit, respond}
use making_soa_homework.Market.Tokens.{
  Claims, claims, expired, broken, Crypto, hash_password, verify_password, create_access_token,
  create_refresh_token, get_current_user,
}
use making_soa_homework.Market.Tokens.Laws.{CryptoLaws}
use making_soa_homework.Market.Auth.{
  AuthRegisterRequest, find_email, check_new_email, register_body, register_user, tokens_of, log_in,
  login_user, refresh_token,
}
use making_soa_homework.Market.Auth.Accounts.{
  EmailsDiffer, register_user-EmailsDiffer, login_user-register_user, get_current_user-login_user,
  refresh_token-login_user,
}
use making_soa_homework.Tests.Samples.{shop, settings, at}

-- A token is its claims beside the secret, and a password its own hash.
abbrev Text : Type 0
Text = Claims × String

abbrev toy : Crypto Text
toy = record {
  encode = λ p s. (p, s);
  decode =
      λ t s now. if str_eq t.1 s then (if ltb t.0.exp now then expired else claims t.0) else broken;
  hash = λ password. some password;
  verify = λ password h. str_eq password h;
}

toy-CryptoLaws : CryptoLaws toy
toy-CryptoLaws = record {
  decode-encode = λ p s now. rw (eq_refl s);
  verify-hash = λ password h e. ground (arith, eq_iff password h);
}

abbrev as_is : Text → Text
as_is t = t

abbrev never : Text → Bool
never t = false

abbrev new_account : AuthRegisterRequest
new_account = record { email = "joe@shop"; password = "secret"; role = none }

abbrev joe : User
joe = record { id = 100; email = "joe@shop"; hashed_password = "secret"; role = role_user }

abbrev joined : Db
joined = record shop { users = joe ∷ shop.users }

-- Opens the handlers of accounts.
pub opened : Unit {0}
unfolding ◌>>=◌ query and_commit respond find_email check_new_email hash_password verify_password
    register_body register_user log_in login_user find
opened = tt

joe_joins : respond (register_user toy (at 0 100) new_account) shop ≡ (ok joe, joined)
unfolding opened
joe_joins = refl

joe_logs_in :
    respond (login_user toy settings 0 "joe@shop" "secret") joined
    ≡ (ok (tokens_of toy settings 0 joe), joined)
unfolding opened
joe_logs_in = refl

register_user-EmailsDiffer_example :
    EmailsDiffer (respond (register_user toy (at 0 100) new_account) shop).1.users
unfolding find_email
register_user-EmailsDiffer_example =
    register_user-EmailsDiffer toy (at 0 100) new_account shop (refl, (refl, (refl, (refl, tt))))

login_user-register_user_example :
    respond (login_user toy settings 7 "joe@shop" "secret") joined
    ≡ (ok (tokens_of toy settings 7 joe), joined)
login_user-register_user_example =
    login_user-register_user toy toy-CryptoLaws (at 0 100) new_account settings 7 shop joe joined
      joe_joins

get_current_user-login_user_example :
    get_current_user toy as_is never settings 60000000
      (some (create_access_token toy settings 0 100 role_user))
      joined
    ≡ ok joe
unfolding opened
get_current_user-login_user_example =
    get_current_user-login_user toy toy-CryptoLaws as_is never settings 0 60000000 "joe@shop"
      "secret" joined (tokens_of toy settings 0 joe) joined joe joe_logs_in refl refl refl refl
      (omega arith)

refresh_token-login_user_example :
    respond
      (refresh_token toy settings 60000000 (create_refresh_token toy settings 0 100 role_user))
      joined
    ≡ (
      ok (record {
        access_token = create_access_token toy settings 60000000 100 role_user;
        refresh_token = create_refresh_token toy settings 0 100 role_user;
        token_type = "bearer";
      }),
      joined,
    )
unfolding opened
refresh_token-login_user_example =
    refresh_token-login_user toy toy-CryptoLaws settings 0 60000000 "joe@shop" "secret" joined
      (tokens_of toy settings 0 joe) joined joe joe joined joe_logs_in refl refl (omega arith)
