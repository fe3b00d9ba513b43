-- ===== src/Market/Http/Log.antt =====
-- `log_requests`: дз_2/app/src/core/logging.py. `json.loads` and the decoding of bytes are outside:
-- what they make of the body is an argument, and so are the clock, the draw of `uuid4` and the
-- handler.
use making_soa_homework.Base.{
  ℕ, ◌≡◌, refl, true, Option, none, some, String, List, [], ◌∷◌, ◌||◌, if◌then◌else◌, arith,
  Option-cases, inl, inr,
}
use making_soa_homework.Base.Exec.{Result, ok, err, Result-cases}
use making_soa_homework.Market.Http.Json.{
  Json, null, flag, number, array, object, lookup, mask, lookup-mask, stars, letters,
}
use text.Mathlib.Text.{◌==◌ as str_eq}

-- The body of a request: none, bytes that are not UTF-8, text that is no JSON, or JSON.
pub data Body : Type 0 where
  no_bytes not_utf8 : Body
  not_json : String → Body
  parsed : Json → Body

pub record Request : Type 0 where
  pub method : String
  pub path : String
  pub body : Body

pub record Response : Type 0 where
  pub status_code : ℕ
  pub request_id : Option String

-- The field `body` of a record of the log.
pub data Logged : Type 0 where
  json : Json → Logged
  raw : String → Logged

pub record LogRecord : Type 0 where
  pub request_id : String
  pub method : String
  pub endpoint : String
  pub status_code : ℕ
  pub duration_ms : ℕ
  pub user_id : Option ℕ
  pub timestamp : String
  pub body : Option Logged

-- `if request.method in {"POST", "PUT", "DELETE"}: body_bytes = await request.body()`
abbrev pub body_bytes : Request → Body
body_bytes request =
    if str_eq request.method "POST" || str_eq request.method "PUT" || str_eq request.method "DELETE"
    then request.body
    else no_bytes

abbrev pub masked : Json → Json
masked (object body) = object (mask body)
masked value = value

-- The body for the log, which has none for a JSON null; `decode("utf-8")` raises UnicodeDecodeError, which nothing catches.
unfoldable pub logged_body : Body → Result (Unit {0}) (Option Logged)
logged_body no_bytes = ok none
logged_body not_utf8 = err tt
logged_body (not_json s) = ok (some (raw s))
logged_body (parsed null) = ok none
logged_body (parsed value) = ok (some (json (masked value)))

-- What the middleware reads from outside.
pub record Moment : Type 0 where
  pub request_id : String
  pub duration_ms : ℕ
  pub timestamp : String

abbrev pub record_of : Moment → Request → Response → Option ℕ → Option Logged → LogRecord
record_of m request response user_id body = record {
  request_id = m.request_id;
  method = request.method;
  endpoint = request.path;
  status_code = response.status_code;
  duration_ms = m.duration_ms;
  user_id = user_id;
  timestamp = m.timestamp;
  body = body;
}

module _ {S : Type 0} where
  -- The handler answers with a response and with the user whom it has found. The log is the last
  -- component.
  unfoldable pub log_requests :
      Moment
      → Request
      → (S → (Response × Option ℕ) × S)
      → S
      → Result (Unit {0}) Response × S × List LogRecord
  log_requests m request call_next s =
      let ((response, user_id), s') = call_next s in
      elim (logged_body (body_bytes request)) [
        | err e ↦ (err e, s', [])
        | ok body ↦ (
          ok (record response { request_id = some m.request_id }),
          s',
          record_of m request response user_id body ∷ [],
        )
      ]

-- The member of a logged body.
abbrev pub told : String → Option Logged → Option Json
told k (some (json (object body))) = lookup k body
told k _ = none

told-masked :
    (k : String) (value : Json)
    → (str_eq "password" k || str_eq "refresh_token" k) ≡ true
    → told k (some (json (masked value))) ≡ stars (told k (some (json (masked value))))
told-masked k (object body) secret = elim (Option-cases (lookup k body)) [
  | inl e ↦ ground (arith, lookup-mask k body)
  | inr (v, e) ↦ ground (arith, lookup-mask k body)
]
told-masked k null secret = refl
told-masked k (flag b) secret = refl
told-masked k (number n) secret = refl
told-masked k (letters t) secret = refl
told-masked k (array l) secret = refl

json_masked :
    (k : String) (value : Json) (b : Option Logged)
    → (str_eq "password" k || str_eq "refresh_token" k) ≡ true
    → ◌≡◌ {A = Result (Unit {0}) (Option Logged)} (ok (some (json (masked value)))) (ok b)
    → told k b ≡ stars (told k b)
json_masked k value b secret h =
    let e : b ≡ some (json (masked value)) = cc in rw e (told-masked k value secret)

secret_masked :
    (k : String) (body : Body) (b : Option Logged)
    → (str_eq "password" k || str_eq "refresh_token" k) ≡ true
    → logged_body body ≡ ok b
    → told k b ≡ stars (told k b)
unfolding logged_body
secret_masked k no_bytes b secret h = let e : b ≡ none = cc in rw e refl
secret_masked k not_utf8 b secret h = cc
secret_masked k (not_json s) b secret h = let e : b ≡ some (raw s) = cc in rw e refl
secret_masked k (parsed null) b secret h = let e : b ≡ none = cc in rw e refl
secret_masked k (parsed (object o)) b secret h = json_masked k (object o) b secret h
secret_masked k (parsed (flag f)) b secret h = json_masked k (flag f) b secret h
secret_masked k (parsed (number n)) b secret h = json_masked k (number n) b secret h
secret_masked k (parsed (letters t)) b secret h = json_masked k (letters t) b secret h
secret_masked k (parsed (array l)) b secret h = json_masked k (array l) b secret h

-- What has happened when the middleware answers.
pub record Logs {S : Type 0} (request : Request) (r : (Response × Option ℕ) × S)
    (response : Response) (s' : S) (l : List LogRecord) : Type 0 where
  pub entry : LogRecord
  pub only : l ≡ entry ∷ []
  pub handled : s' ≡ r.1
  pub answered : response ≡ record (r.0.0) { request_id = some entry.request_id }
  pub status : entry.status_code ≡ response.status_code
  pub user : entry.user_id ≡ r.0.1
  pub password : told "password" entry.body ≡ stars (told "password" entry.body)
  pub token : told "refresh_token" entry.body ≡ stars (told "refresh_token" entry.body)

-- A request that the middleware answers is logged once, with the status of the answer and the
-- handler's user; the answer is the handler's, under the identifier of the log; and where the logged
-- body is a dictionary, its password and its refresh token are masked.
pub log_requests-ok :
    {S : Type 0} (m : Moment) (request : Request) (call_next : S → (Response × Option ℕ) × S)
    (s : S) (response : Response) (s' : S) (l : List LogRecord)
    → log_requests m request call_next s ≡ (ok response, s', l)
    → Logs request (call_next s) response s' l
unfolding log_requests
log_requests-ok m request call_next s response s' l h =
    elim (Result-cases (logged_body (body_bytes request))) [
      | inl (b, e) ↦
          let made = record_of m request (call_next s).0.0 (call_next s).0.1 b in
          record {
            entry = made;
            only = ground arith;
            handled = ground arith;
            answered = ground arith;
            status = ground arith;
            user = refl;
            password = secret_masked "password" (body_bytes request) b refl e;
            token = secret_masked "refresh_token" (body_bytes request) b refl e;
          }
      | inr (e, f) ↦ absurd (ground arith)
    ]
