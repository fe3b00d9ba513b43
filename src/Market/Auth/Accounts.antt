-- ===== src/Market/Auth/Accounts.antt =====
-- Accounts and sessions, from registration to a renewed token.
use text.Mathlib.TextEquality.{eq_iff}
use making_soa_homework.Base.{
  ℕ, ◌+◌, ◌*◌, ◌/◌, ◌≤◌, ◌≡◌, ◌∙◌, refl, sym, ap, true, false, none, some, String, List, [], ◌∷◌,
  arith, inl, inr, Bool, Option-cases, Bool-cases,
}
use making_soa_homework.Base.Table.{find}
use making_soa_homework.Base.Exec.{Result, ok, err, ◌>>=◌}
use making_soa_homework.Market.Models.{User, user_key, Db}
use making_soa_homework.Market.Errors.{Error}
use making_soa_homework.Market.Session.{Settings, Context, respond}
use making_soa_homework.Market.Session.Outcome.{
  respond-written-ok, respond-written-err, respond-query,
}
use making_soa_homework.Market.Tokens.{
  Crypto, hash_password, verify_password, get_current_user, create_access_token,
}
use making_soa_homework.Market.Tokens.Laws.{
  CryptoLaws, verify_token-create_access_token, verify_token-create_refresh_token,
}
use making_soa_homework.Market.Auth.{
  AuthRegisterRequest, TokenResponse, find_email, check_new_email, register_body, register_user,
  tokens_of, log_in, login_user, renew, refresh_token,
}

-- No two users have the same address.
abbrev pub EmailsDiffer : List User → Type 0
EmailsDiffer [] = Unit
EmailsDiffer (u ∷ t) = (find_email u.email t ≡ none) × EmailsDiffer t

new_email :
    (email : String) (t : List User) → check_new_email email t ≡ ok tt → find_email email t ≡ none
unfolding check_new_email
new_email email t h = ground arith

-- What a registration has done: the new user stands first, under an address that nobody had.
register_body_lem :
    {T : Type 0} (c : Crypto T) (x : Context) (payload : AuthRegisterRequest) (d : Db) (u : User)
    (d' : Db)
    → register_body c x payload d ≡ (ok u, d')
    → (d' ≡ record d { users = u ∷ d.users })
      × (u.email ≡ payload.email)
      × (c.hash payload.password ≡ some u.hashed_password)
unfolding register_body hash_password ◌>>=◌
register_body_lem c x payload d u d' h = elim (Option-cases (c.hash payload.password)) [
  | inl refused ↦ ground arith
  | inr (hashed, e) ↦ ground arith
]

-- If no two users have the same address, then so after a registration, whatever it is answered
-- with.
pub register_user-EmailsDiffer :
    {T : Type 0} (c : Crypto T) (x : Context) (payload : AuthRegisterRequest) (d : Db)
    → EmailsDiffer d.users
    → EmailsDiffer (respond (register_user c x payload) d).1.users
unfolding register_user
register_user-EmailsDiffer c x payload d differ = split _ refl
  where
    split :
        (q : Result Error User × Db)
        → respond (register_user c x payload) d ≡ q
        → EmailsDiffer q.1.users
    split (ok u, d') h =
        let (_, fresh, done) = respond-written-ok _ _ d h in
        let (after, email, hashed) = register_body_lem c x payload d u d' done in
        rw after (rw email (new_email payload.email d.users fresh), differ)
    split (err e, d') h = rw (respond-written-err _ _ d h) differ

logged :
    {T : Type 0} (c : Crypto T) (laws : CryptoLaws c) (payload : AuthRegisterRequest)
    (settings : Settings) (now : ℕ) (d : Db) (u : User)
    → u.email ≡ payload.email
    → c.hash payload.password ≡ some u.hashed_password
    → log_in c settings now payload.email payload.password (record d { users = u ∷ d.users })
      ≡ ok (tokens_of c settings now u)
unfolding log_in
logged c laws payload settings now d u email hashed = ground (
  arith,
  eq_iff u.email payload.email,
  laws.verify-hash payload.password u.hashed_password hashed,
)

-- Who has just registered logs in with the same address and password, and gets the tokens of the
-- new account.
pub login_user-register_user :
    {T : Type 0} (c : Crypto T) (laws : CryptoLaws c) (x : Context) (payload : AuthRegisterRequest)
    (settings : Settings) (now : ℕ) (d : Db) (u : User) (d' : Db)
    → respond (register_user c x payload) d ≡ (ok u, d')
    → respond (login_user c settings now payload.email payload.password) d'
      ≡ (ok (tokens_of c settings now u), d')
unfolding register_user login_user
login_user-register_user {T} c laws x payload settings now d u d' h =
    let (_, fresh, done) = respond-written-ok _ _ d h in
    let (after, email, hashed) = register_body_lem c x payload d u d' done in
    respond-query _ d'
    ∙ ap (λ (r : Result Error (TokenResponse T)). (r, d'))
        (rw after (logged c laws payload settings now d u email hashed))

-- The user that a login has found, and whose tokens it has handed out.
record LoggedIn {T : Type 0} (c : Crypto T) (settings : Settings) (now : ℕ)
    (email password : String) (d : Db) (t : TokenResponse T) : Type 0 where
  user : User
  found : find_email email d.users ≡ some user
  verified : verify_password c password user.hashed_password ≡ true
  handed : t ≡ tokens_of c settings now user

log_in-LoggedIn :
    {T : Type 0} (c : Crypto T) (settings : Settings) (now : ℕ) (email password : String) (d : Db)
    (t : TokenResponse T)
    → log_in c settings now email password d ≡ ok t
    → LoggedIn c settings now email password d t
unfolding log_in
log_in-LoggedIn c settings now email password d t h =
    elim (Option-cases (find_email email d.users)) [
      | inl absent ↦ ground arith
      | inr (user, found) ↦ elim (Bool-cases (verify_password c password user.hashed_password)) [
        | inl verified ↦ record {
          user = user;
          found = found;
          verified = verified;
          handed = ground arith;
        }
        | inr wrong ↦ ground arith
      ]
    ]

renewed :
    {T : Type 0} (c : Crypto T) (laws : CryptoLaws c) (settings : Settings) (now later : ℕ)
    (u v : User) (t : TokenResponse T) (d : Db)
    → t ≡ tokens_of c settings now u
    → find user_key u.id d.users ≡ some v
    → later ≤ now + settings.refresh_token_expires_days * 86400000000
    → renew c settings later t.refresh_token d
      ≡ ok (record {
        access_token = create_access_token c settings later v.id v.role;
        refresh_token = t.refresh_token;
        token_type = "bearer";
      })
unfolding renew
renewed c laws settings now later u v t d handed here alive =
    ground (arith, in_time, verify_token-create_refresh_token c laws settings now later u.id u.role)
  where
    in_time : later / 1000000 ≤ (now + settings.refresh_token_expires_days * 86400000000) / 1000000
    in_time = omega arith

-- The access token of a login identifies, until it expires, the user with that address, if the
-- identifier finds that user too, the token is not empty, and `str.strip` leaves it as it is.
pub get_current_user-login_user :
    {T : Type 0} (c : Crypto T) (laws : CryptoLaws c) (strip : T → T) (is_empty : T → Bool)
    (settings : Settings) (now later : ℕ) (email password : String) (d : Db) (t : TokenResponse T)
    (d' : Db) (u : User)
    → respond (login_user c settings now email password) d ≡ (ok t, d')
    → find_email email d.users ≡ some u
    → find user_key u.id d.users ≡ some u
    → is_empty t.access_token ≡ false
    → strip t.access_token ≡ t.access_token
    → later ≤ now + settings.access_token_expires_minutes * 60000000
    → get_current_user c strip is_empty settings later (some t.access_token) d' ≡ ok u
unfolding login_user get_current_user
get_current_user-login_user {T} c laws strip is_empty settings now later email password d t d' u h
      found here full bare alive =
    let answer = sym (respond-query _ d) ∙ h in
    let l =
      log_in-LoggedIn c settings now email password d t
        (ap (λ (r : Result Error (TokenResponse T) × Db). r.0) answer) in
    ground (
      arith,
      l.found,
      l.handed,
      ap (λ (r : Result Error (TokenResponse T) × Db). r.1) answer,
      in_time,
      verify_token-create_access_token c laws settings now later u.id u.role,
    )
  where
    in_time : later / 1000000 ≤ (now + settings.access_token_expires_minutes * 60000000) / 1000000
    in_time = omega arith

-- The refresh token of a login is exchanged, until it expires and while the account exists, for a
-- new access token of the same user, with the user's present role, and comes back itself; nothing
-- changes.
pub refresh_token-login_user :
    {T : Type 0} (c : Crypto T) (laws : CryptoLaws c) (settings : Settings) (now later : ℕ)
    (email password : String) (d : Db) (t : TokenResponse T) (d' : Db) (u v : User) (d'' : Db)
    → respond (login_user c settings now email password) d ≡ (ok t, d')
    → find_email email d.users ≡ some u
    → find user_key u.id d''.users ≡ some v
    → later ≤ now + settings.refresh_token_expires_days * 86400000000
    → respond (refresh_token c settings later t.refresh_token) d'' ≡ (
      ok (record {
        access_token = create_access_token c settings later v.id v.role;
        refresh_token = t.refresh_token;
        token_type = "bearer";
      }),
      d'',
    )
unfolding login_user refresh_token
refresh_token-login_user {T} c laws settings now later email password d t d' u v d'' h found here
      alive =
    let answer = sym (respond-query _ d) ∙ h in
    let l =
      log_in-LoggedIn c settings now email password d t
        (ap (λ (r : Result Error (TokenResponse T) × Db). r.0) answer) in
    respond-query _ d''
    ∙ ap (λ (r : Result Error (TokenResponse T)). (r, d''))
        (renewed c laws settings now later u v t d'' (unfold_user l.found l.handed) here alive)
  where
    unfold_user :
        {w : User}
        → find_email email d.users ≡ some w
        → t ≡ tokens_of c settings now w
        → t ≡ tokens_of c settings now u
    unfold_user p q = ground arith
