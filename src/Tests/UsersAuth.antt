-- ===== src/Tests/UsersAuth.antt =====
-- An account of users_auth.
use Prim.Native.String.{◌++◌ as ◌<>◌}
use text.Mathlib.Text.{◌==◌ as str_eq}
use making_soa_homework.Base.{◌≡◌, refl, some, String, [], ◌∷◌, if◌then◌else◌}
use making_soa_homework.Base.Exec.{ok, err}
use making_soa_homework.UsersAuth.{
  Users, RegisterRequest, letters, find_email, hash_password, register, bad_credentials, login,
}
use making_soa_homework.UsersAuth.Laws.{login-register, IsValid, register-IsValid}

abbrev nobody : Users
nobody = record { rows = []; next_id = 1 }

abbrev ann : RegisterRequest
ann = record { email = "ann@shop"; password = "secret"; role = "buyer" }

-- A hash for the runs.
abbrev hashed : String → String
hashed s = "#" <> s

abbrev one_user : Users
one_user = record {
  rows = record { id = 1; email = "ann@shop"; password_hash = "#secret"; role = "buyer" } ∷ [];
  next_id = 2;
}

ann_registered :
    register some hashed ann nobody
    ≡ (ok (record { id = 1; email = "ann@shop"; role = "buyer" }), one_user)
unfolding register letters find_email hash_password
ann_registered = refl

login-register_example : login some hashed "ann@shop" "guess" one_user ≡ (
    if str_eq "#secret" "#guess"
    then ok (record { token = hashed ("ann@shop" <> ":" <> "#secret"); role = "buyer" })
    else err bad_credentials)
login-register_example = login-register some hashed ann nobody _ one_user "guess" ann_registered

nobody-IsValid : IsValid nobody
nobody-IsValid = record { different = tt; numbered = tt; roles = tt }

register-IsValid_example : IsValid (register some hashed ann nobody).1
register-IsValid_example = register-IsValid some hashed ann nobody nobody-IsValid
