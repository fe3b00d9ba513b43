-- ===== src/Market/Orders/PromoUses.antt =====
-- The uses of a promo code are counted: `current_uses` is the number of orders that have the code
-- and are not canceled, and stays within `max_uses`.
use making_soa_homework.Base.{
  ℕ, ◌+◌, ◌-◌, ◌≤◌, ◌≡◌, refl, ap, false, Option, none, some, String, List, [], ◌∷◌, arith, inl,
  inr, ◌==◌, if◌then◌else◌, Option-cases,
}
use making_soa_homework.Base.Table.{find, modify, find-modify, IsKeyed, modify-IsKeyed}
use making_soa_homework.Base.Count.{sum_by, sum_by-modify, sum_by-le}
use making_soa_homework.Base.Exec.{ok, ◌>>=◌}
use making_soa_homework.Market.Models.{PromoCode, promo_key, Order, Db, order_key}
use making_soa_homework.Market.Promo.{find_code, validate_promo_basic, take_use, release_use}
use making_soa_homework.Market.Session.{Context}
use making_soa_homework.Market.Orders.{
  changed_order, canceled_order, apply_promo, reprice, release, cancel_body,
}
use making_soa_homework.Market.Orders.Lines.{requested, deduct, restore}
use making_soa_homework.Market.Orders.Frame.{
  apply_promo-SameShop, reprice-SameShop, cancel_body-tables,
}
use making_soa_homework.Market.Orders.Requests.{
  OrderRequest, serve, Effect, nothing, creates, updates, cancels, request-Effect, serve_induction,
}
use making_soa_homework.Market.Stock.{is_canceled}

abbrev pub uses : ℕ → List PromoCode → ℕ
uses i t = elim (find promo_key i t) [ none ↦ 0 | some p ↦ p.current_uses ]

abbrev pub limit : ℕ → List PromoCode → ℕ
limit i t = elim (find promo_key i t) [ none ↦ 0 | some p ↦ p.max_uses ]

abbrev pub has_promo : ℕ → Option ℕ → ℕ
has_promo i none = 0
has_promo i (some j) = if j == i then 1 else 0

abbrev pub redeems : ℕ → Order → ℕ
redeems i o = if is_canceled o.status then 0 else has_promo i o.promo_code_id

-- How many orders have the promo code and are not canceled.
abbrev pub redeemed : ℕ → Db → ℕ
redeemed i d = sum_by (redeems i) d.orders

find_code-find :
    (c : String) (t : List PromoCode) (p : PromoCode)
    → IsKeyed promo_key t
    → find_code c t ≡ some p
    → find promo_key p.id t ≡ some p
unfolding find_code find
find_code-find c [] p k h = cc
find_code-find c (q ∷ t) p k h = ground (arith, find_code-find c t p k.1)

take-uses :
    (i j : ℕ) (t : List PromoCode) (p : PromoCode)
    → find promo_key j t ≡ some p
    → uses i (modify promo_key j take_use t) ≡ uses i t + has_promo i (some j)
take-uses i j t p h = ground (arith, find-modify promo_key j i take_use t (λ q. refl))

take-limit : (i j : ℕ) (t : List PromoCode) → limit i (modify promo_key j take_use t) ≡ limit i t
take-limit i j t = ground (arith, find-modify promo_key j i take_use t (λ q. refl))

release-uses :
    (i j : ℕ) (t : List PromoCode)
    → uses i (modify promo_key j release_use t) ≡ uses i t - has_promo i (some j)
release-uses i j t = ground (arith, find-modify promo_key j i release_use t (λ q. ground arith))

release-limit :
    (i j : ℕ) (t : List PromoCode) → limit i (modify promo_key j release_use t) ≡ limit i t
release-limit i j t = ground (arith, find-modify promo_key j i release_use t (λ q. ground arith))

-- The promo codes have distinct identifiers, the code `i` is used as often as orders hold it, and
-- no more often than it may be.
pub record IsFair (i : ℕ) (d : Db) : Type 0 where
  pub keyed : IsKeyed promo_key d.promo_codes
  pub counted : uses i d.promo_codes ≡ redeemed i d
  pub within : uses i d.promo_codes ≤ limit i d.promo_codes

-- What a promo code step does to the code `i`, where the order had the code `old` and has `new`.
record Counts (i : ℕ) (old new : Option ℕ) (t t' : List PromoCode) : Type 0 where
  keyed : IsKeyed promo_key t'
  moved : has_promo i old ≤ uses i t → uses i t' + has_promo i old ≡ uses i t + has_promo i new
  kept : uses i t ≤ limit i t → uses i t' ≤ limit i t'

valid_within :
    (now : ℕ) (p : PromoCode)
    → validate_promo_basic now false p ≡ ok tt
    → p.current_uses + 1 ≤ p.max_uses
unfolding validate_promo_basic
valid_within now p v = ground arith

apply_promo-Counts :
    (i : ℕ) (x : Context) (code : Option String) (total : ℕ) (d : Db) (promo : Option ℕ)
    (discount : ℕ)
    → IsKeyed promo_key d.promo_codes
    → (apply_promo x code total d).0 ≡ ok (promo, discount)
    → Counts i none promo d.promo_codes (apply_promo x code total d).1.promo_codes
unfolding apply_promo ◌>>=◌
apply_promo-Counts i x none total d promo discount k h = ground arith
apply_promo-Counts i x (some c) total d promo discount k h =
    elim (Option-cases (find_code c d.promo_codes)) [
      | inl absent ↦ ground arith
      | inr (p, e) ↦ applied p e
    ]
  where
    applied :
        (p : PromoCode)
        → find_code c d.promo_codes ≡ some p
        → Counts i none promo d.promo_codes (apply_promo x (some c) total d).1.promo_codes
    applied p e =
        let here = find_code-find c d.promo_codes p k e in
        ground (
          arith,
          here,
          valid_within x.now_promo p,
          take-uses i p.id d.promo_codes p here,
          take-limit i p.id d.promo_codes,
          modify-IsKeyed promo_key p.id take_use d.promo_codes (λ q. refl) k,
        )

reprice-Counts :
    (i : ℕ) (x : Context) (old : Option ℕ) (total : ℕ) (d : Db) (promo : Option ℕ) (discount : ℕ)
    → IsKeyed promo_key d.promo_codes
    → (reprice x old total d).0 ≡ ok (promo, discount)
    → Counts i old promo d.promo_codes (reprice x old total d).1.promo_codes
unfolding reprice ◌>>=◌
reprice-Counts i x none total d promo discount k h = ground arith
reprice-Counts i x (some j) total d promo discount k h = ground (
  arith,
  release-uses i j d.promo_codes,
  release-limit i j d.promo_codes,
  modify-IsKeyed promo_key j release_use d.promo_codes (λ q. ground arith) k,
)

cancel_body-Counts :
    (i : ℕ) (x : Context) (order : Order) (d : Db)
    → IsKeyed promo_key d.promo_codes
    → Counts i order.promo_code_id none d.promo_codes (cancel_body x order d).1.promo_codes
unfolding cancel_body ◌>>=◌
cancel_body-Counts i x order d k = released order.promo_code_id
  where
    released :
        (old : Option ℕ)
        → let d1 : Db = record d { products = restore order.items d.products } in
          Counts i old none d.promo_codes (release old d1).promo_codes
    released none = ground arith
    released (some j) = ground (
      arith,
      release-uses i j d.promo_codes,
      release-limit i j d.promo_codes,
      modify-IsKeyed promo_key j release_use d.promo_codes (λ q. ground arith) k,
    )

redeems-le :
    (i : ℕ) (o : Order) (d : Db)
    → find order_key o.id d.orders ≡ some o
    → redeems i o ≤ redeemed i d
redeems-le i o d here = sum_by-le order_key (redeems i) o.id d.orders here

Effect-IsFair :
    (x : Context) (d d' : Db) (r : OrderRequest) (i : ℕ)
    → IsFair i d
    → Effect x d d' r
    → IsFair i d'
unfolding sum_by
Effect-IsFair x d d' r i fair (nothing r' same) = rw same fair
Effect-IsFair x d d' r i fair (creates user payload o c) =
    let taken : Db = record d { products = deduct (requested payload.items) d.products } in
    let same = apply_promo-SameShop x payload.promo_code c.total taken in
    let count =
      apply_promo-Counts i x payload.promo_code c.total taken c.promo c.discount fair.keyed
        c.applied in
    rw c.after (ground (arith, count, fair, ap (sum_by (redeems i)) same.1))
Effect-IsFair x d d' r i fair (updates user id payload order o owned open_ c) =
    let t = deduct (requested payload.items) (restore order.items d.products) in
    let taken : Db = record d { products = t } in
    let same = reprice-SameShop x order.promo_code_id c.total taken in
    let o' =
      changed_order x c.total c.discount order c.promo c.total_amount c.discount_amount c.lines in
    let count =
      reprice-Counts i x order.promo_code_id c.total taken c.promo c.discount fair.keyed
        c.applied in
    rw c.after (
      ground (
        arith,
        count,
        fair,
        redeems-le i order d owned.here,
        sum_by-modify order_key (redeems i) order.id (λ _. o') d.orders owned.here,
        ap (λ (l : List Order). sum_by (redeems i) (modify order_key order.id (λ _. o') l)) same.1,
      ))
Effect-IsFair x d d' r i fair (cancels user id order owned open_ done) =
    let o' : Order = canceled_order x order in
    let count = cancel_body-Counts i x order d fair.keyed in
    rw done (
      ground (
        arith,
        count,
        fair,
        redeems-le i order d owned.here,
        sum_by-modify order_key (redeems i) order.id (λ _. o') d.orders owned.here,
        ap (sum_by (redeems i)) (cancel_body-tables x order d).1,
      ))

-- If the identifiers of the promo codes are distinct, and `current_uses` of the code `i` is the
-- number of orders that have it and are not canceled, and within `max_uses`, then all of that
-- holds after any order requests.
pub serve-IsFair :
    (l : List (Context × OrderRequest)) (d : Db) (i : ℕ) → IsFair i d → IsFair i (serve l d)
serve-IsFair l d i fair =
    serve_induction (IsFair i) (λ x r e h. Effect-IsFair x e _ r i h (request-Effect x r e)) l d
      fair
