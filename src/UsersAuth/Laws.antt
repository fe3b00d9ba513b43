-- ===== src/UsersAuth/Laws.antt =====
-- Registration and login agree: дз_1/auth_service/services/users_auth/app/app.py.
use text.Mathlib.Text.{◌==◌ as str_eq}
use text.Mathlib.TextPositions.{eq_refl}
use Prim.Native.String.{◌++◌ as ◌<>◌}
use making_soa_homework.Base.{
  ℕ, ◌+◌, ◌<◌, ◌≡◌, sym, subst, ◌||◌, true, All, Bool-cases, [], Option, none, some, String, List,
  ◌∷◌, if◌then◌else◌, arith, Option-cases, inl, inr,
}
use making_soa_homework.Base.Exec.{ok, err}
use making_soa_homework.UsersAuth.{
  User, Users, RegisterRequest, Registered, find_email, hash_password, new_user, register,
  valid_fields, bad_credentials, login,
}

found : (u : User) (rest : List User) → find_email u.email (u ∷ rest) ≡ some u
unfolding find_email
found u rest = ground (arith, eq_refl u.email)

module _ (email : String → Option String) (sha256 : String → String) where
  -- A registration that is answered has put the new user first, under the checked address.
  record Registers (payload : RegisterRequest) (users : Users) (r : Registered) (users' : Users)
      : Type 0 where
    address : String
    checked : email payload.email ≡ some address
    free : find_email address users.rows ≡ none
    shown : r.email ≡ address
    rows : users'.rows ≡ new_user email sha256 users address payload ∷ users.rows

  register-ok :
      (payload : RegisterRequest) (users : Users) (r : Registered) (users' : Users)
      → register email sha256 payload users ≡ (ok r, users')
      → Registers payload users r users'
  unfolding register
  register-ok payload users r users' h = elim (Option-cases (email payload.email)) [
    | inl e ↦ absurd (ground arith)
    | inr (address, e) ↦ elim (Option-cases (find_email address users.rows)) [
      | inl f ↦ record {
        address = address;
        checked = e;
        free = f;
        shown = ground arith;
        rows = ground arith;
      }
      | inr (u, f) ↦ absurd (ground arith)
    ]
  ]

  -- Who has just registered logs in with exactly those passwords that have the hash of the
  -- registered one, and gets the token and the role of the new account; others are answered with 401.
  pub login-register :
      (payload : RegisterRequest) (users : Users) (r : Registered) (users' : Users)
      (password : String)
      → register email sha256 payload users ≡ (ok r, users')
      → login email sha256 payload.email password users' ≡ (
          if str_eq (sha256 payload.password) (sha256 password)
          then ok (record {
            token = sha256 (r.email <> ":" <> sha256 payload.password);
            role = payload.role;
          })
          else err bad_credentials)
  unfolding login hash_password
  login-register payload users r users' password h =
      let made = register-ok payload users r users' h in
      let user = new_user email sha256 users made.address payload in
      let known : find_email made.address users'.rows ≡ some user =
        rw made.rows (found user users.rows) in
      ground (arith, known, made.checked, made.shown)

-- The rules of the table: an address and a number belong to one user, the numbers are used up to the
-- next one, and everybody buys or sells.
abbrev pub AreDifferent : List User → Type 0
AreDifferent [] = Unit
AreDifferent (u ∷ rest) =
    (find_email u.email rest ≡ none) × All (λ (v : User). v.id < u.id) rest × AreDifferent rest

abbrev pub HasRole : User → Type 0
HasRole u = (str_eq u.role "buyer" || str_eq u.role "seller") ≡ true

pub record IsValid (users : Users) : Type 0 where
  pub different : AreDifferent users.rows
  pub numbered : All (λ (v : User). v.id < users.next_id) users.rows
  pub roles : All HasRole users.rows

ids_later :
    (n : ℕ) (l : List User) → All (λ (v : User). v.id < n) l → All (λ (v : User). v.id < n + 1) l
ids_later n [] h = tt
ids_later n (u ∷ l) h = (omega (arith, h.0), ids_later n l h.1)

module _ (email : String → Option String) (sha256 : String → String) where
  added_to :
      (address : String) (payload : RegisterRequest) (users : Users)
      → find_email address users.rows ≡ none
      → (str_eq payload.role "buyer" || str_eq payload.role "seller") ≡ true
      → IsValid users
      → IsValid (record {
        rows = new_user email sha256 users address payload ∷ users.rows;
        next_id = users.next_id + 1;
      })
  added_to address payload users free role valid = record {
    different = (free, valid.numbered, valid.different);
    numbered = (omega arith, ids_later users.next_id users.rows valid.numbered);
    roles = (role, valid.roles);
  }

  -- A registration keeps the rules of the table, whatever it is answered with.
  pub register-IsValid :
      (payload : RegisterRequest) (users : Users)
      → IsValid users
      → IsValid (register email sha256 payload users).1
  unfolding register
  register-IsValid payload users valid = elim (Option-cases (email payload.email)) [
    | inl e ↦ subst IsValid (sym (ground arith)) valid
    | inr (address, e) ↦ elim (Bool-cases (valid_fields email sha256 payload)) [
      | inl f ↦ elim (Option-cases (find_email address users.rows)) [
        | inl g ↦
            subst IsValid (sym (ground arith))
              (added_to address payload users g (ground arith) valid)
        | inr (u, g) ↦ subst IsValid (sym (ground arith)) valid
      ]
      | inr f ↦ subst IsValid (sym (ground arith)) valid
    ]
  ]
