-- ===== src/Market/Promo.antt =====
-- Promo codes: `_validate_promo_basic` and `_calculate_discount` of дз_2/app/src/main.py.
use making_soa_homework.Base.{
  ℕ, ◌+◌, ◌-◌, ◌*◌, String, Bool, ◌&&◌, ◌||◌, not, Option, none, some, List, [], ◌∷◌, ltb, leb,
  if◌then◌else◌,
}
use making_soa_homework.Base.Exec.{ok, err}
use text.Mathlib.Text.{◌==◌ as str_eq}
use making_soa_homework.Market.Models.{PromoCode, DiscountType, percentage, fixed_amount}
use making_soa_homework.Market.Errors.{
  Error, api_error, promo_code_invalid, promo_code_min_amount, Fallible, ◌>>◌, raise_if,
}

abbrev pub invalid_promo : Error
invalid_promo = api_error promo_code_invalid 422 "Promo code invalid"

-- `query(PromoCode).filter(PromoCode.code == code).one_or_none()`; the column is unique.
unfoldable pub find_code : String → List PromoCode → Option PromoCode
find_code c [] = none
find_code c (p ∷ t) = if str_eq p.code c then some p else find_code c t

unfoldable pub validate_promo_basic : ℕ → Bool → PromoCode → Fallible (Unit {0})
validate_promo_basic now allow_exhausted promo = do
  let is_exhausted = leb promo.max_uses promo.current_uses
  raise_if (not promo.active || (is_exhausted && not allow_exhausted)) invalid_promo
  raise_if (not (leb promo.valid_from now && leb now promo.valid_until)) invalid_promo

-- The discount in millionths, by its type: `value` and `total` are cents, and a percentage is a
-- number of hundredths of a percent.
unfoldable pub discount_of : DiscountType → ℕ → ℕ → ℕ
discount_of percentage value total =
    let discount = total * value in
    let max_discount = total * 7000 in if ltb max_discount discount then max_discount else discount
discount_of fixed_amount value total =
    if ltb (total * 10000) (value * 10000) then total * 10000 else value * 10000

unfoldable pub calculate_discount : PromoCode → ℕ → Fallible ℕ
unfolding discount_of
calculate_discount promo total =
    if ltb total promo.min_order_amount
    then err (api_error promo_code_min_amount 422 "Order amount below promo minimum")
    else ok (discount_of promo.discount_type promo.discount_value total)

-- `promo.current_uses += 1`
abbrev pub take_use : PromoCode → PromoCode
take_use p = record p { current_uses = p.current_uses + 1 }

-- `if promo.current_uses > 0: promo.current_uses -= 1`
abbrev pub release_use : PromoCode → PromoCode
release_use p = if ltb 0 p.current_uses then record p { current_uses = p.current_uses - 1 } else p
