-- ===== src/Market/Orders/PromoKeys.antt =====
-- The promo codes that the order handlers of дз_2/app/src/main.py refer to.
use making_soa_homework.Base.{
  ℕ, ◌≡◌, refl, true, Option, none, some, String, List, [], ◌∷◌, arith, Option-cases, inl, inr,
}
use making_soa_homework.Base.Table.{find}
use making_soa_homework.Base.Exec.{ok, ◌>>=◌}
use making_soa_homework.Market.Models.{PromoCode, promo_key, Order, Db}
use making_soa_homework.Market.Promo.{find_code, take_use, release_use}
use making_soa_homework.Market.Session.{Context}
use making_soa_homework.Market.Orders.{apply_promo, reprice, release, cancel_body}
use making_soa_homework.Market.Orders.Lines.{restore}
use making_soa_homework.Market.Orders.ForeignKeys.{has, knows_code, has-modify}

find_code-has :
    (c : String) (t : List PromoCode) (p : PromoCode)
    → find_code c t ≡ some p
    → has promo_key p.id t ≡ true
unfolding find_code find
find_code-has c [] p h = cc
find_code-has c (q ∷ t) p h = ground (arith, find_code-has c t p)

pub apply_promo-has :
    (x : Context) (code : Option String) (total : ℕ) (d : Db) (promo : Option ℕ) (discount : ℕ)
    → (apply_promo x code total d).0 ≡ ok (promo, discount)
    → knows_code promo d.promo_codes ≡ true
unfolding apply_promo ◌>>=◌
apply_promo-has x none total d promo discount h = ground arith
apply_promo-has x (some c) total d promo discount h =
    elim (Option-cases (find_code c d.promo_codes)) [
      | inl absent ↦ ground arith
      | inr (p, e) ↦ ground (arith, find_code-has c d.promo_codes p e)
    ]

pub apply_promo-promos :
    (x : Context) (code : Option String) (total : ℕ) (d : Db) (j : ℕ)
    → has promo_key j (apply_promo x code total d).1.promo_codes ≡ has promo_key j d.promo_codes
unfolding apply_promo ◌>>=◌
apply_promo-promos x none total d j = refl
apply_promo-promos x (some c) total d j = elim (Option-cases (find_code c d.promo_codes)) [
  | inl absent ↦ ground arith
  | inr (p, e) ↦ ground (arith, has-modify promo_key p.id j take_use d.promo_codes (λ q. refl))
]

pub reprice-has :
    (x : Context) (old : Option ℕ) (total : ℕ) (d : Db) (promo : Option ℕ) (discount : ℕ)
    → (reprice x old total d).0 ≡ ok (promo, discount)
    → knows_code promo d.promo_codes ≡ true
unfolding reprice ◌>>=◌
reprice-has x none total d promo discount h = ground arith
reprice-has x (some i) total d promo discount h = ground arith

pub reprice-promos :
    (x : Context) (old : Option ℕ) (total : ℕ) (d : Db) (j : ℕ)
    → has promo_key j (reprice x old total d).1.promo_codes ≡ has promo_key j d.promo_codes
unfolding reprice ◌>>=◌
reprice-promos x none total d j = refl
reprice-promos x (some i) total d j =
    ground (arith, has-modify promo_key i j release_use d.promo_codes (λ q. ground arith))

pub release-promos :
    (old : Option ℕ) (d : Db) (j : ℕ)
    → has promo_key j (release old d).promo_codes ≡ has promo_key j d.promo_codes
release-promos none d j = refl
release-promos (some i) d j = has-modify promo_key i j release_use d.promo_codes (λ q. ground arith)

pub cancel_body-promos :
    (x : Context) (order : Order) (d : Db) (j : ℕ)
    → has promo_key j (cancel_body x order d).1.promo_codes ≡ has promo_key j d.promo_codes
unfolding cancel_body ◌>>=◌
cancel_body-promos x order d j =
    release-promos order.promo_code_id (record d { products = restore order.items d.products }) j
