-- ===== src/UsersAuth.antt =====
-- The users_auth service: дз_1/auth_service/services/users_auth/app. SHA-256 is an argument
-- (`sha256`), and so is the check of an address, with what it makes of it (`email`: EmailStr).
pub mod Laws
use text.Mathlib.Text.{◌==◌ as str_eq}
use Prim.Native.String.{◌++◌ as ◌<>◌}
use making_soa_homework.Base.{
  ℕ, ◌+◌, Bool, true, false, ◌&&◌, ◌||◌, not, Option, none, some, String, List, [], ◌∷◌, leb,
  if◌then◌else◌,
}
use making_soa_homework.Base.Exec.{Result, ok, err}

pub record User : Type 0 where
  pub id : ℕ
  pub email : String
  pub password_hash : String
  pub role : String

-- The table, with the next number of its identifiers.
pub record Users : Type 0 where
  pub rows : List User
  pub next_id : ℕ

pub record RegisterRequest : Type 0 where
  pub email : String
  pub password : String
  pub role : String

pub record Registered : Type 0 where
  pub id : ℕ
  pub email : String
  pub role : String

pub record TokenResponse : Type 0 where
  pub token : String
  pub role : String

-- A refused request: 422 from the validation, or an `HTTPException`.
pub data Refusal : Type 0 where
  invalid_request : Refusal
  http_exception : ℕ → String → Refusal

-- `len` of a text.
unfoldable pub letters : String → ℕ
letters String.[] = 0
letters (String.◌∷◌ c s) = letters s + 1

-- `select(User).where(User.email == email)`; the column is unique.
unfoldable pub find_email : String → List User → Option User
find_email email [] = none
find_email email (u ∷ rest) =
    let found = find_email email rest in if str_eq u.email email then some u else found

abbrev pub bad_credentials : Refusal
bad_credentials = http_exception 401 "Invalid credentials"

module _ (email : String → Option String) (sha256 : String → String) where
  unfoldable pub hash_password : String → String
  hash_password password = sha256 password

  -- The fields of `RegisterRequest`: the address, and whether the others are as declared.
  abbrev pub valid_fields : RegisterRequest → Bool
  valid_fields payload =
      leb 6 (letters payload.password)
      && leb (letters payload.password) 128
      && (str_eq payload.role "buyer" || str_eq payload.role "seller")

  abbrev pub new_user : Users → String → RegisterRequest → User
  new_user users address payload = record {
    id = users.next_id;
    email = address;
    password_hash = hash_password payload.password;
    role = payload.role;
  }

  abbrev added : User → Users → Result Refusal Registered × Users
  added u users = (
    ok (record { id = u.id; email = u.email; role = u.role }),
    record { rows = u ∷ users.rows; next_id = users.next_id + 1 },
  )

  abbrev register_checked : String → RegisterRequest → Users → Result Refusal Registered × Users
  register_checked address payload users = elim (find_email address users.rows) [
    | some existing ↦ (err (http_exception 409 "User already exists"), users)
    | none ↦ added (new_user users address payload) users
  ]

  unfoldable pub register : RegisterRequest → Users → Result Refusal Registered × Users
  unfolding letters find_email hash_password
  register payload users = elim (email payload.email) [
    | none ↦ (err invalid_request, users)
    | some address ↦
        if valid_fields payload
        then register_checked address payload users
        else (err invalid_request, users)
  ]

  -- `hashlib.sha256(f"{user.email}:{user.password_hash}")`
  abbrev pub token_of : User → TokenResponse
  token_of user = record {
    token = sha256 (user.email <> ":" <> user.password_hash);
    role = user.role;
  }

  unfoldable pub login : String → String → Users → Result Refusal TokenResponse
  unfolding find_email hash_password
  login address password users = elim (email address) [
    | none ↦ err invalid_request
    | some known ↦ elim (find_email known users.rows) [
      | none ↦ err bad_credentials
      | some user ↦
          if str_eq user.password_hash (hash_password password)
          then ok (token_of user)
          else err bad_credentials
    ]
  ]
