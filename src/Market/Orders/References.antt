-- ===== src/Market/Orders/References.antt =====
-- The foreign keys of the tables (дз_2/app/alembic/versions/9b6b825cc7cb_initial_schema.py) under the
-- order handlers of дз_2/app/src/main.py.
use making_soa_homework.Base.{◌≡◌, ◌∙◌, refl, sym, ap, subst, true, some, List, [], ◌∷◌, All}
use making_soa_homework.Base.Table.{find, modify}
use making_soa_homework.Market.Models.{
  User, user_key, Product, product_key, Order, order_key, OrderItem, Db, OperationType,
  OrderCreateRequest, OrderUpdateRequest,
}
use making_soa_homework.Market.Session.{Context, respond}
use making_soa_homework.Market.Orders.{
  new_order, changed_order, canceled_order, operation, apply_promo, reprice, cancel_body,
}
use making_soa_homework.Market.Orders.Lines.{requested, deduct, restore}
use making_soa_homework.Market.Orders.Frame.{
  apply_promo-SameShop, reprice-SameShop, cancel_body-tables,
}
use making_soa_homework.Market.Orders.Requests.{
  OrderRequest, handle, serve, Effect, nothing, creates, updates, cancels, request-Effect,
}
use making_soa_homework.Market.Orders.Outcome.{Created, Updated}
use making_soa_homework.Market.Orders.PromoKeys.{
  apply_promo-has, apply_promo-promos, reprice-has, reprice-promos, cancel_body-promos,
}
use making_soa_homework.Market.Orders.ForeignKeys.{
  has, Refers, References, Keeps, All-modify, All-find, All-deduct, All-restore, lines_listed,
  knows_code-Keeps, Refers-Keeps, orders-Keeps, operations-Keeps, sellers-Keeps,
}
use making_soa_homework.Market.Stock.Lines.{listed-deduct, listed-restore}

abbrev pub sender : OrderRequest → User
sender (OrderRequest.create user payload) = user
sender (OrderRequest.get user id) = user
sender (OrderRequest.update user id payload) = user
sender (OrderRequest.cancel user id) = user

-- The user of each request is in the table.
abbrev pub AllKnown : List (Context × OrderRequest) → Db → Type 0
AllKnown l d = All (λ (q : Context × OrderRequest). has user_key (sender q.1).id d.users ≡ true) l

-- The tables after an answer, and the rows that it leaves: all keys are there still.
create-References :
    (x : Context) (user : User) (payload : OrderCreateRequest) (d d' : Db) (o : Order)
    → has user_key user.id d.users ≡ true
    → References d
    → Created x user payload d o d'
    → References d' × (d'.users ≡ d.users)
create-References x user payload d d' o known refs c =
    let wanted = requested payload.items in
    let t = deduct wanted d.products in
    let taken : Db = record d { products = t } in
    let d1 = (apply_promo x payload.promo_code c.total taken).1 in
    let same = apply_promo-SameShop x payload.promo_code c.total taken in
    let o' = new_order x user c.promo c.total_amount c.discount_amount c.lines in
    let d2 : Db = record d1 {
      orders = o' ∷ d1.orders;
      user_operations = operation x user.id OperationType.create_order ∷ d1.user_operations;
    } in
    let k : Keeps d d2 = record {
      users = same.3;
      products = λ j. ap (has product_key j) same.0 ∙ listed-deduct j wanted d.products;
      promos = apply_promo-promos x payload.promo_code c.total taken;
    } in
    let listed = lines_listed x.new_id 2 payload.items t c.total c.lines c.priced in
    let made : Refers d2 o' = record {
      customer = ap (has user_key user.id) same.3 ∙ known;
      promo =
          knows_code-Keeps d d2 c.promo k
          ∙ apply_promo-has x payload.promo_code c.total taken c.promo c.discount c.applied;
      products =
          subst
            (λ (u : List Product).
              All (λ (item : OrderItem). has product_key item.product_id u ≡ true) c.lines)
            (sym same.0) listed;
    } in
    rw c.after (
      record {
        orders =
            (made, subst (All (Refers d2)) (sym same.1) (orders-Keeps d d2 d.orders k refs.orders));
        operations = (made.customer, operations-Keeps d d1 same.2 same.3 refs.operations);
        sellers =
            sellers-Keeps d d1 t same.0 same.3
              (All-deduct _ (λ p n h. h) wanted d.products refs.sellers);
      },
      same.3,
    )

update-References :
    (x : Context) (user : User) (order : Order) (payload : OrderUpdateRequest) (d d' : Db)
    (o : Order)
    → has user_key user.id d.users ≡ true
    → find order_key order.id d.orders ≡ some order
    → References d
    → Updated x user order payload d o d'
    → References d' × (d'.users ≡ d.users)
update-References x user order payload d d' o known here refs c =
    let wanted = requested payload.items in
    let back = restore order.items d.products in
    let t = deduct wanted back in
    let taken : Db = record d { products = t } in
    let d1 = (reprice x order.promo_code_id c.total taken).1 in
    let same = reprice-SameShop x order.promo_code_id c.total taken in
    let o' =
      changed_order x c.total c.discount order c.promo c.total_amount c.discount_amount c.lines in
    let d2 : Db = record d1 {
      orders = modify order_key order.id (λ _. o') d1.orders;
      user_operations = operation x user.id OperationType.update_order ∷ d1.user_operations;
    } in
    let k : Keeps d d2 = record {
      users = same.3;
      products = λ j.
          ap (has product_key j) same.0
          ∙ listed-deduct j wanted back
          ∙ listed-restore j order.items d.products;
      promos = reprice-promos x order.promo_code_id c.total taken;
    } in
    let old =
      Refers-Keeps d d2 order k
        (All-find (Refers d) order_key order.id d.orders here refs.orders) in
    let made : Refers d2 o' = record {
      customer = old.customer;
      promo =
          knows_code-Keeps d d2 c.promo k
          ∙ reprice-has x order.promo_code_id c.total taken c.promo c.discount c.applied;
      products =
          subst
            (λ (u : List Product).
              All (λ (item : OrderItem). has product_key item.product_id u ≡ true) c.lines)
            (sym same.0) (lines_listed x.new_id 2 payload.items t c.total c.lines c.priced);
    } in
    rw c.after (
      record {
        orders =
            All-modify (Refers d2) order_key order.id (λ _. o') d1.orders (λ a h. made)
              (subst (All (Refers d2)) (sym same.1) (orders-Keeps d d2 d.orders k refs.orders));
        operations = (
          ap (has user_key user.id) same.3 ∙ known,
          operations-Keeps d d1 same.2 same.3 refs.operations,
        );
        sellers = sellers-Keeps d d1 t same.0 same.3 (
            All-deduct _ (λ p n h. h) wanted back
              (All-restore _ (λ p n h. h) order.items d.products refs.sellers));
      },
      same.3,
    )

cancel-References :
    (x : Context) (order : Order) (d : Db)
    → find order_key order.id d.orders ≡ some order
    → References d
    → let d' = (cancel_body x order d).1 in References d' × (d'.users ≡ d.users)
cancel-References x order d here refs =
    let d' = (cancel_body x order d).1 in
    let tables = cancel_body-tables x order d in
    let t = restore order.items d.products in
    let o' : Order = canceled_order x order in
    let k : Keeps d d' = record {
      users = tables.3;
      products = λ j. ap (has product_key j) tables.0 ∙ listed-restore j order.items d.products;
      promos = cancel_body-promos x order d;
    } in
    let old =
      Refers-Keeps d d' order k
        (All-find (Refers d) order_key order.id d.orders here refs.orders) in
    let made : Refers d' o' = record {
      customer = old.customer;
      promo = old.promo;
      products = old.products;
    } in
    (
      record {
        orders = subst (All (Refers d')) (sym tables.1) (
            All-modify (Refers d') order_key order.id (λ _. o') d.orders (λ a h. made)
              (orders-Keeps d d' d.orders k refs.orders));
        operations = operations-Keeps d d' tables.2 tables.3 refs.operations;
        sellers =
            sellers-Keeps d d' t tables.0 tables.3
              (All-restore _ (λ p n h. h) order.items d.products refs.sellers);
      },
      tables.3,
    )

Effect-References :
    (x : Context) (d d' : Db) (r : OrderRequest)
    → has user_key (sender r).id d.users ≡ true
    → References d
    → Effect x d d' r
    → References d' × (d'.users ≡ d.users)
Effect-References x d d' r known refs (nothing r' same) = rw same (refs, refl)
Effect-References x d d' r known refs (creates user payload o c) =
    create-References x user payload d d' o known refs c
Effect-References x d d' r known refs (updates user id payload order o owned open_ c) =
    update-References x user order payload d d' o known owned.here refs c
Effect-References x d d' r known refs (cancels user id order owned open_ done) =
    rw done (cancel-References x order d owned.here refs)

AllKnown-users :
    (l : List (Context × OrderRequest)) (d d' : Db)
    → d'.users ≡ d.users
    → AllKnown l d
    → AllKnown l d'
AllKnown-users l d d' same h = rw same h

-- If no foreign key of the tables is dangling, and the users of the requests are in their table, then
-- no foreign key is dangling after any order requests: every order has its customer, its promo code
-- and the products of its items, every logged operation its user, and every product its seller.
pub serve-References :
    (l : List (Context × OrderRequest)) (d : Db)
    → AllKnown l d
    → References d
    → References (serve l d)
unfolding serve
serve-References [] d known refs = refs
serve-References ((x, r) ∷ rest) d known refs =
    let (after, same) =
      Effect-References x d (respond (handle x r) d).1 r known.0 refs (request-Effect x r d) in
    serve-References rest (respond (handle x r) d).1
      (AllKnown-users rest d (respond (handle x r) d).1 same known.1) after
