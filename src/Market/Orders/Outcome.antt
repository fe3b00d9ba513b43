-- ===== src/Market/Orders/Outcome.antt =====
-- What has happened when a block of an order handler returns: every step of it, in order.
use making_soa_homework.Base.{ℕ, ◌-◌, ◌*◌, ◌≡◌, Option, List, ◌∷◌}
use making_soa_homework.Base.Table.{modify}
use making_soa_homework.Base.Exec.{ok, bind-ok, ask-ok, write-ok, pure-ok}
use making_soa_homework.Market.Models.{
  OperationType, User, Order, OrderItem, Db, OrderCreateRequest, OrderUpdateRequest, order_key,
}
use making_soa_homework.Market.Session.{Context, stored}
use making_soa_homework.Market.Orders.Lines.{
  requested, check_products, check_stock, deduct, restore, price_items,
}
use making_soa_homework.Market.Orders.Limits.{check_rate_limit, check_no_active}
use making_soa_homework.Market.Orders.{
  operation, new_order, changed_order, apply_promo, reprice, create_body, update_body,
}

module _ (x : Context) (user : User) (payload : OrderCreateRequest) where
  pub record Created (d : Db) (o : Order) (d' : Db) : Type 0 where
    pub rate : check_rate_limit x user.id OperationType.create_order d.user_operations ≡ ok tt
    pub free : check_no_active user.id d.orders ≡ ok tt
    pub there : check_products (requested payload.items) d.products ≡ ok tt
    pub enough : check_stock (requested payload.items) d.products ≡ ok tt
    pub total : ℕ
    pub lines : List OrderItem
    pub priced :
        price_items x.new_id 2 payload.items (deduct (requested payload.items) d.products)
        ≡ ok (total, lines)
    pub promo : Option ℕ
    pub discount : ℕ
    pub applied :
        (apply_promo x payload.promo_code total
          (record d { products = deduct (requested payload.items) d.products })).0
        ≡ ok (promo, discount)
    pub total_amount : ℕ
    pub discount_amount : ℕ
    pub total_kept : stored x (total * 10000 - discount) ≡ ok total_amount
    pub discount_kept : stored x discount ≡ ok discount_amount
    pub order_is : o ≡ new_order x user promo total_amount discount_amount lines
    pub after : d' ≡ (
        let d1 =
          (apply_promo x payload.promo_code total
            (record d { products = deduct (requested payload.items) d.products })).1 in
        record d1 {
          orders = new_order x user promo total_amount discount_amount lines ∷ d1.orders;
          user_operations = operation x user.id OperationType.create_order ∷ d1.user_operations;
        })

  pub create_body-ok :
      (d : Db) (o : Order) (d' : Db) → create_body x user payload d ≡ (ok o, d') → Created d o d'
  unfolding create_body
  create_body-ok d o d' h =
      let (_, rate, h1) = ask-ok _ _ _ h in
      let (_, free, h2) = ask-ok _ _ _ h1 in
      let (_, there, h3) = ask-ok _ _ _ h2 in
      let (_, enough, h4) = ask-ok _ _ _ h3 in
      let h5 = write-ok _ _ _ h4 in
      let ((total, lines), priced, h6) = ask-ok _ _ _ h5 in
      let ((promo, discount), applied, h7) = bind-ok _ _ _ h6 in
      let (total_amount, total_kept, h8) = ask-ok _ _ _ h7 in
      let (discount_amount, discount_kept, h9) = ask-ok _ _ _ h8 in
      let (made, left) = pure-ok _ _ (write-ok _ _ _ h9) in
      record {
        rate = rate;
        free = free;
        there = there;
        enough = enough;
        total = total;
        lines = lines;
        priced = priced;
        promo = promo;
        discount = discount;
        applied = applied;
        total_amount = total_amount;
        discount_amount = discount_amount;
        total_kept = total_kept;
        discount_kept = discount_kept;
        order_is = made;
        after = left;
      }

module _ (x : Context) (user : User) (order : Order) (payload : OrderUpdateRequest) where
  -- The products while the block runs: the order's items are back.
  abbrev pub restored : Db → Db
  restored d = record d { products = restore order.items d.products }

  pub record Updated (d : Db) (o : Order) (d' : Db) : Type 0 where
    pub rate : check_rate_limit x user.id OperationType.update_order d.user_operations ≡ ok tt
    pub there : check_products (requested payload.items) (restored d).products ≡ ok tt
    pub enough : check_stock (requested payload.items) (restored d).products ≡ ok tt
    pub total : ℕ
    pub lines : List OrderItem
    pub priced :
        price_items x.new_id 2 payload.items
          (deduct (requested payload.items) (restored d).products)
        ≡ ok (total, lines)
    pub promo : Option ℕ
    pub discount : ℕ
    pub applied :
        (reprice x order.promo_code_id total
          (record d { products = deduct (requested payload.items) (restored d).products })).0
        ≡ ok (promo, discount)
    pub total_amount : ℕ
    pub discount_amount : ℕ
    pub total_kept : stored x (total * 10000 - discount) ≡ ok total_amount
    pub discount_kept : stored x discount ≡ ok discount_amount
    pub order_is : o ≡ changed_order x total discount order promo total_amount discount_amount lines
    pub after : d' ≡ (
        let d1 =
          (reprice x order.promo_code_id total
            (record d { products = deduct (requested payload.items) (restored d).products })).1 in
        record d1 {
          orders =
              modify order_key order.id
                (λ _. changed_order x total discount order promo total_amount discount_amount lines)
                d1.orders;
          user_operations = operation x user.id OperationType.update_order ∷ d1.user_operations;
        })

  pub update_body-ok :
      (d : Db) (o : Order) (d' : Db)
      → update_body x user order payload d ≡ (ok o, d')
      → Updated d o d'
  unfolding update_body
  update_body-ok d o d' h =
      let (_, rate, h1) = ask-ok _ _ _ h in
      let h2 = write-ok _ _ _ h1 in
      let (_, there, h3) = ask-ok _ _ _ h2 in
      let (_, enough, h4) = ask-ok _ _ _ h3 in
      let h5 = write-ok _ _ _ h4 in
      let ((total, lines), priced, h6) = ask-ok _ _ _ h5 in
      let ((promo, discount), applied, h7) = bind-ok _ _ _ h6 in
      let (total_amount, total_kept, h8) = ask-ok _ _ _ h7 in
      let (discount_amount, discount_kept, h9) = ask-ok _ _ _ h8 in
      let (made, left) = pure-ok _ _ (write-ok _ _ _ h9) in
      record {
        rate = rate;
        there = there;
        enough = enough;
        total = total;
        lines = lines;
        priced = priced;
        promo = promo;
        discount = discount;
        applied = applied;
        total_amount = total_amount;
        discount_amount = discount_amount;
        total_kept = total_kept;
        discount_kept = discount_kept;
        order_is = made;
        after = left;
      }
