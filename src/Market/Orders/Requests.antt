-- ===== src/Market/Orders/Requests.antt =====
-- The requests on orders, one after another, and what each has done when it is answered.
use making_soa_homework.Base.{
  ℕ, ◌≡◌, refl, sym, ap, ◌∙◌, true, ◌⊎◌, inl, inr, some, List, [], ◌∷◌, arith, Option-cases,
}
use making_soa_homework.Base.Table.{find, key-find}
use making_soa_homework.Base.Exec.{Result, ok, err}
use making_soa_homework.Market.Models.{
  User, Order, Db, OrderCreateRequest, OrderUpdateRequest, order_key, is_admin, is_created, is_open,
}
use making_soa_homework.Market.Errors.{Error}
use making_soa_homework.Market.Access.{
  require_order_owner, customers, respond-as_role, respond-as_role-ok, respond-as_role-err,
}
use making_soa_homework.Market.Session.{Context, Handler, respond, query}
use making_soa_homework.Market.Session.Outcome.{
  respond_block-ok, respond_block-err, respond-loaded-ok, respond-loaded-err,
}
use making_soa_homework.Market.Orders.{
  own_order, cancel_body, create_order, get_order, update_order, cancel_order,
}
use making_soa_homework.Market.Orders.Outcome.{Created, Updated, create_body-ok, update_body-ok}

pub data OrderRequest : Type 0 where
  create : User → OrderCreateRequest → OrderRequest
  get : User → ℕ → OrderRequest
  update : User → ℕ → OrderUpdateRequest → OrderRequest
  cancel : User → ℕ → OrderRequest

unfoldable pub handle : Context → OrderRequest → Handler Order
handle x (create user payload) = create_order x user payload
handle x (get user id) = get_order user id
handle x (update user id payload) = update_order x user id payload
handle x (cancel user id) = cancel_order x user id

-- The database behind the requests, each with what it reads from outside.
unfoldable pub serve : List (Context × OrderRequest) → Db → Db
serve [] d = d
serve ((x, r) ∷ rest) d = serve rest (respond (handle x r) d).1

-- The order that a handler has read: it is in the table, and the user may touch it.
pub record Owned (user : User) (id : ℕ) (d : Db) (order : Order) : Type 0 where
  pub here : find order_key order.id d.orders ≡ some order
  pub at : order.id ≡ id
  pub owner : (is_admin user.role ≡ true) ⊎ (order.user_id ≡ user.id)

pub own_order-ok :
    (user : User) (id : ℕ) (d : Db) (order : Order)
    → own_order user id d ≡ ok order
    → Owned user id d order
unfolding own_order require_order_owner
own_order-ok user id d order h = elim (Option-cases (find order_key id d.orders)) [
  | inl absent ↦ ground arith
  | inr (o, here) ↦ ground (arith, key-find order_key id d.orders here)
]

-- What a request has done: nothing, if it is answered with an error.
pub data Effect (x : Context) (d : Db) (d' : Db) : OrderRequest → Type 0 where
  nothing : (r : OrderRequest) → d' ≡ d → Effect x d d' r
  creates :
      (user : User) (payload : OrderCreateRequest) (o : Order)
      → Created x user payload d o d'
      → Effect x d d' (create user payload)
  updates :
      (user : User) (id : ℕ) (payload : OrderUpdateRequest) (order o : Order)
      → Owned user id d order
      → is_created order.status ≡ true
      → Updated x user order payload d o d'
      → Effect x d d' (update user id payload)
  cancels :
      (user : User) (id : ℕ) (order : Order)
      → Owned user id d order
      → is_open order.status ≡ true
      → d' ≡ (cancel_body x order d).1
      → Effect x d d' (cancel user id)

reads : (user : User) (id : ℕ) (d : Db) → (respond (get_order user id) d).1 ≡ d
unfolding get_order respond query
reads user id d = ground (arith, respond-as_role customers user (query (own_order user id)) d)

create-Effect :
    (x : Context) (user : User) (payload : OrderCreateRequest) (d : Db)
    (q : Result Error Order × Db)
    → respond (create_order x user payload) d ≡ q
    → Effect x d q.1 (create user payload)
unfolding create_order
create-Effect x user payload d (ok o, d') h = creates user payload o (
    create_body-ok x user payload d o d'
      (respond_block-ok _ d (respond-as_role-ok customers user _ d h)))
create-Effect x user payload d (err e, d') h =
    nothing _ (respond-as_role-err customers user _ d (respond_block-err _ d) h)

update-Effect :
    (x : Context) (user : User) (id : ℕ) (payload : OrderUpdateRequest) (d : Db)
    (q : Result Error Order × Db)
    → respond (update_order x user id payload) d ≡ q
    → Effect x d q.1 (update user id payload)
unfolding update_order
update-Effect x user id payload d (ok o, d') h =
    let (order, read, passed, done) =
      respond-loaded-ok _ _ _ d (respond-as_role-ok customers user _ d h) in
    updates user id payload order o (own_order-ok user id d order read) (ground arith)
      (update_body-ok x user order payload d o d' done)
update-Effect x user id payload d (err e, d') h =
    nothing _ (respond-as_role-err customers user _ d (respond-loaded-err _ _ _ d) h)

cancel-Effect :
    (x : Context) (user : User) (id : ℕ) (d : Db) (q : Result Error Order × Db)
    → respond (cancel_order x user id) d ≡ q
    → Effect x d q.1 (cancel user id)
unfolding cancel_order
cancel-Effect x user id d (ok o, d') h =
    let (order, read, passed, done) =
      respond-loaded-ok _ _ _ d (respond-as_role-ok customers user _ d h) in
    cancels user id order (own_order-ok user id d order read) (ground arith)
      (sym (ap (λ (r : Result Error Order × Db). r.1) done))
cancel-Effect x user id d (err e, d') h =
    nothing _ (respond-as_role-err customers user _ d (respond-loaded-err _ _ _ d) h)

pub request-Effect :
    (x : Context) (r : OrderRequest) (d : Db) → Effect x d (respond (handle x r) d).1 r
unfolding handle
request-Effect x (create user payload) d = create-Effect x user payload d _ refl
request-Effect x (get user id) d = nothing _ (reads user id d)
request-Effect x (update user id payload) d = update-Effect x user id payload d _ refl
request-Effect x (cancel user id) d = cancel-Effect x user id d _ refl

-- What each request keeps, the requests keep.
pub serve_induction :
    (P : Db → Type 0)
    → ((x : Context) (r : OrderRequest) (d : Db) → P d → P (respond (handle x r) d).1)
    → (l : List (Context × OrderRequest)) (d : Db) → P d
    → P (serve l d)
unfolding serve
serve_induction P step [] d h = h
serve_induction P step ((x, r) ∷ rest) d h = serve_induction P step rest _ (step x r d h)

-- A request that is answered with an error, whichever, leaves the database as it was.
pub request_error :
    (x : Context) (r : OrderRequest) (d : Db) (e : Error) (d' : Db)
    → respond (handle x r) d ≡ (err e, d')
    → d' ≡ d
unfolding handle create_order get_order update_order cancel_order
request_error x (create user payload) d e d' h =
    respond-as_role-err customers user _ d (respond_block-err _ d) h
request_error x (get user id) d e d' h =
    sym (ap (λ (r : Result Error Order × Db). r.1) h) ∙ reads user id d
request_error x (update user id payload) d e d' h =
    respond-as_role-err customers user _ d (respond-loaded-err _ _ _ d) h
request_error x (cancel user id) d e d' h =
    respond-as_role-err customers user _ d (respond-loaded-err _ _ _ d) h
