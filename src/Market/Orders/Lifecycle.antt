-- ===== src/Market/Orders/Lifecycle.antt =====
-- The life of an order under the handlers of дз_2/app/src/main.py, as steps of a state machine.
use making_soa_homework.Base.{
  ℕ, ◌≡◌, refl, sym, subst, true, false, Option, none, some, List, [], ◌∷◌, arith, ◌==◌, Bool-cases,
  inl, inr,
}
use making_soa_homework.Base.Table.{find, modify, find-modify_const}
use making_soa_homework.Market.Models.{
  Order, OrderStatus, created, canceled, Db, order_key, is_open,
}
use making_soa_homework.Market.Session.{Context, respond}
use making_soa_homework.Market.Orders.{changed_order, canceled_order}
use making_soa_homework.Market.Orders.Lines.{requested, deduct, restore}
use making_soa_homework.Market.Orders.Frame.{
  apply_promo-SameShop, reprice-SameShop, cancel_body-tables,
}
use making_soa_homework.Market.Orders.Requests.{
  OrderRequest, handle, serve, Effect, nothing, creates, updates, cancels, request-Effect,
}

-- What the state machine sees of an order: its customer and its status, or that there is none.
abbrev pub View : Type 0
View = Option (ℕ × OrderStatus)

abbrev pub seen : Option Order → View
seen none = none
seen (some o) = some (o.user_id, o.status)

-- The order with the identifier `i`.
abbrev pub view : ℕ → Db → View
view i d = seen (find order_key i d.orders)

-- An order is placed as created, and canceled while it is open. Nothing else happens to it.
pub data Step : View → View → Type 0 where
  stay : (v : View) → Step v v
  place : (u : ℕ) → Step none (some (u, created))
  call_off : (u : ℕ) (s : OrderStatus) → is_open s ≡ true → Step (some (u, s)) (some (u, canceled))

pub data Life : View → View → Type 0 where
  here : (v : View) → Life v v
  next : (v w z : View) → Step v w → Life w z → Life v z

Step-final :
    (v w : View) (u : ℕ) (s : OrderStatus)
    → Step v w
    → v ≡ some (u, s)
    → is_open s ≡ false
    → w ≡ some (u, s)
Step-final v w u s (stay v') e closed = e
Step-final v w u s (place u') e closed = cc
Step-final v w u s (call_off u' s' open_) e closed = absurd (ground arith)

-- An order that is not open stays as it is.
pub Life-final :
    (v z : View) (u : ℕ) (s : OrderStatus)
    → Life v z
    → v ≡ some (u, s)
    → is_open s ≡ false
    → z ≡ some (u, s)
Life-final v z u s (here v') e closed = e
Life-final v z u s (next v' w' z' step life) e closed =
    Life-final w' z' u s life (Step-final v' w' u s step e closed) closed

-- `uuid4` draws an identifier for a new order that no order has.
abbrev pub Fresh : Context → Db → Type 0
Fresh x d = find order_key (x.new_id 0) d.orders ≡ none

abbrev pub AllFresh : List (Context × OrderRequest) → Db → Type 0
AllFresh [] d = Unit
AllFresh ((x, r) ∷ rest) d = Fresh x d × AllFresh rest (respond (handle x r) d).1

Step-at : {v w v' w' : View} → v ≡ v' → w ≡ w' → Step v' w' → Step v w
Step-at {v} {w} {v'} {w'} e f step =
    subst (λ a. Step a w) (sym e) (subst (λ b. Step v' b) (sym f) step)

Step-cons :
    (i : ℕ) (o : Order) (t : List Order)
    → find order_key o.id t ≡ none
    → o.status ≡ created
    → Step (seen (find order_key i t)) (seen (find order_key i (o ∷ t)))
unfolding find
Step-cons i o t fresh new = elim (Bool-cases (o.id == i)) [
  | inl e ↦ Step-at (ground arith) (ground arith) (place o.user_id)
  | inr e ↦ Step-at refl (ground arith) (stay _)
]

Step-modify :
    (i : ℕ) (o o' : Order) (t : List Order)
    → find order_key o.id t ≡ some o
    → o'.id ≡ o.id
    → Step (seen (some o)) (seen (some o'))
    → Step (seen (find order_key i t)) (seen (find order_key i (modify order_key o.id (λ _. o') t)))
Step-modify i o o' t there same step = elim (Bool-cases (o.id == i)) [
  | inl e ↦
      Step-at (ground arith) (ground (arith, find-modify_const order_key o.id i o' t same)) step
  | inr e ↦ Step-at refl (ground (arith, find-modify_const order_key o.id i o' t same)) (stay _)
]

Effect-Step :
    (x : Context) (d d' : Db) (r : OrderRequest) (i : ℕ)
    → Fresh x d
    → Effect x d d' r
    → Step (view i d) (view i d')
unfolding find
Effect-Step x d d' r i fresh (nothing r' same) = rw same (stay _)
Effect-Step x d d' r i fresh (creates user payload o c) =
    let t = deduct (requested payload.items) d.products in
    let same = apply_promo-SameShop x payload.promo_code c.total (record d { products = t }) in
    rw (c.after, same.1) (Step-cons i _ d.orders fresh refl)
Effect-Step x d d' r i fresh (updates user id payload order o owned open_ c) =
    let t = deduct (requested payload.items) (restore order.items d.products) in
    let same = reprice-SameShop x order.promo_code_id c.total (record d { products = t }) in
    let o' =
      changed_order x c.total c.discount order c.promo c.total_amount c.discount_amount c.lines in
    rw (c.after, same.1) (Step-modify i order o' d.orders owned.here refl (stay _))
Effect-Step x d d' r i fresh (cancels user id order owned open_ done) =
    let o' : Order = canceled_order x order in
    rw (done, (cancel_body-tables x order d).1)
      (Step-modify i order o' d.orders owned.here refl (call_off order.user_id order.status open_))

-- If new orders get fresh identifiers, then any order requests take each order through a life of the
-- state machine: it is placed as created, is canceled at most while it is open, and otherwise keeps
-- its customer and its status.
pub serve-Life :
    (l : List (Context × OrderRequest)) (d : Db) (i : ℕ)
    → AllFresh l d
    → Life (view i d) (view i (serve l d))
unfolding serve
serve-Life [] d i fresh = here _
serve-Life ((x, r) ∷ rest) d i fresh =
    next _ _ _ (Effect-Step x d _ r i fresh.0 (request-Effect x r d)) (serve-Life rest _ i fresh.1)

-- Then an order that is not open stays as it is.
pub serve-final :
    (l : List (Context × OrderRequest)) (d : Db) (i u : ℕ) (s : OrderStatus)
    → AllFresh l d
    → view i d ≡ some (u, s)
    → is_open s ≡ false
    → view i (serve l d) ≡ some (u, s)
serve-final l d i u s fresh at closed = Life-final _ _ u s (serve-Life l d i fresh) at closed
