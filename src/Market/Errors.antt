-- ===== src/Market/Errors.antt =====
-- What a handler may raise: an `ApiError` (дз_2/app/src/core/errors.py), the database's refusal of
-- a flush, or a Python exception that no handler catches.
use making_soa_homework.Base.{ℕ, String, List, Bool, true, false}
use making_soa_homework.Base.Exec.{Result, ok, err}

-- One entry of `insufficient`.
pub record Shortage : Type 0 where
  pub product_id : ℕ
  pub requested : ℕ
  pub available : ℕ

pub data Details : Type 0 where
  no_details : Details
  items : List Shortage → Details
  field : String → String → Details

pub data ErrorCode : Type 0 where
  validation_error token_invalid token_expired refresh_token_invalid access_denied : ErrorCode
  product_not_found product_inactive insufficient_stock : ErrorCode
  order_not_found order_has_active order_limit_exceeded order_ownership_violation : ErrorCode
  invalid_state_transition promo_code_invalid promo_code_min_amount : ErrorCode

pub record ApiError : Type 0 where
  pub error_code : ErrorCode
  pub status_code : ℕ
  pub message : String
  pub details : Details

pub data Error : Type 0 where
  api : ApiError → Error
  database_error : Error
  key_error : Error

abbrev pub api_error : ErrorCode → ℕ → String → Error
api_error c n m =
    api (record { error_code = c; status_code = n; message = m; details = no_details })

abbrev pub Fallible : Type 0 → Type 0
Fallible A = Result Error A

infixl 5 ◌>>=◌ ◌>>◌
abbrev pub ◌>>=◌ : {A B : Type 0} → Fallible A → (A → Fallible B) → Fallible B
ok a >>= f = f a
err e >>= f = err e

abbrev pub ◌>>◌ : {A B : Type 0} → Fallible A → Fallible B → Fallible B
m >> k = m >>= λ _. k

abbrev pub raise_if : Bool → Error → Fallible (Unit {0})
raise_if true e = err e
raise_if false e = ok tt
