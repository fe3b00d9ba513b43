-- ===== src/Market/Products/Changes.antt =====
-- What the changes of the catalogue do.
use making_soa_homework.Base.{
  ℕ, ◌≡◌, ◌≢◌, ◌∙◌, refl, ap, true, ◌⊎◌, inl, inr, some, arith, Option-cases,
}
use making_soa_homework.Base.Table.{find, find-modify, key-find}
use making_soa_homework.Base.Exec.{Result, ok, err, ◌>>=◌}
use making_soa_homework.Market.Models.{
  role_seller, role_admin, archived, User, Product, product_key, Db,
}
use making_soa_homework.Market.Errors.{Error, database_error}
use making_soa_homework.Market.Session.{Context, respond}
use making_soa_homework.Market.Session.Outcome.{
  respond-written, respond-written-ok, respond-query, settle_raises,
}
use making_soa_homework.Market.Access.{
  denied, has_role, merchants, respond-as_role, respond-as_role-ok,
}
use making_soa_homework.Market.Products.{
  null, ProductUpdate, find_product, own_product, change_body, update_product, archive_body,
  delete_product, get_product,
}

-- The product that a merchant may change.
pub record Sold (user : User) (id : ℕ) (d : Db) (p : Product) : Type 0 where
  pub here : find product_key id d.products ≡ some p
  pub at : p.id ≡ id
  pub owner : (user.role ≡ role_seller) → p.seller_id ≡ user.id

own_product-Sold :
    (user : User) (id : ℕ) (d : Db) (p : Product) → own_product user id d ≡ ok p → Sold user id d p
unfolding own_product
own_product-Sold user id d p h = elim (Option-cases (find product_key id d.products)) [
  | inl absent ↦ ground arith
  | inr (q, here) ↦ ground (arith, key-find product_key id d.products here)
]

merchant : (user : User) → user.role ≡ role_seller → has_role merchants user.role ≡ true
unfolding has_role
merchant user h = ground arith

admin_merchant : (user : User) → user.role ≡ role_admin → has_role merchants user.role ≡ true
unfolding has_role
admin_merchant user h = ground arith

foreign :
    (user : User) (id : ℕ) (d : Db) (p : Product)
    → user.role ≡ role_seller
    → find product_key id d.products ≡ some p
    → p.seller_id ≢ user.id
    → own_product user id d ≡ err denied
unfolding own_product
foreign user id d p r here other = ground arith

own_by_admin :
    (user : User) (id : ℕ) (d : Db) (p : Product)
    → user.role ≡ role_admin
    → find product_key id d.products ≡ some p
    → own_product user id d ≡ ok p
unfolding own_product
own_by_admin user id d p r here = ground arith

-- A value that must not be missing is `null`.
abbrev pub HasGap : ProductUpdate → Type 0
HasGap u =
    (u.name ≡ null) ⊎ (u.stock ≡ null) ⊎ (u.category ≡ null) ⊎ (u.status ≡ null) ⊎ (u.price ≡ null)

gap_refused :
    (x : Context) (u : ProductUpdate) (p : Product) (d : Db)
    → HasGap u
    → (change_body x u p d).0 ≡ err database_error
unfolding change_body ◌>>=◌
gap_refused x u p d gap = ground arith

-- A seller who updates or deletes the product of another seller is answered with 403
-- ACCESS_DENIED, and nothing changes.
pub foreign_product :
    (x : Context) (user : User) (id : ℕ) (payload : ProductUpdate) (d : Db) (p : Product)
    → user.role ≡ role_seller
    → find product_key id d.products ≡ some p
    → p.seller_id ≢ user.id
    → (respond (update_product x user id payload) d ≡ (err denied, d))
      × (respond (delete_product user id) d ≡ (err denied, d))
unfolding update_product delete_product
foreign_product x user id payload d p r here other =
    let pass = merchant user r in
    let refused = foreign user id d p r here other in
    (
      respond-as_role merchants user _ d ∙ rw pass (respond-written _ _ d ∙ rw refused),
      respond-as_role merchants user _ d ∙ rw pass (respond-written _ _ d ∙ rw refused),
    )

-- An update by an administrator that gives `null` for the name, the price, the stock, the category
-- or the status of a product is not answered with an `ApiError`: the database refuses the flush.
pub update_product_null :
    (x : Context) (user : User) (id : ℕ) (payload : ProductUpdate) (d : Db) (p : Product)
    → user.role ≡ role_admin
    → find product_key id d.products ≡ some p
    → HasGap payload
    → respond (update_product x user id payload) d ≡ (err database_error, d)
unfolding update_product
update_product_null x user id payload d p r here gap =
    respond-as_role merchants user _ d
    ∙ rw (admin_merchant user r) (
        respond-written _ _ d
        ∙ rw (own_by_admin user id d p r here) (settle_raises d _ (gap_refused x payload p d gap)))

archived_found :
    (user : User) (id : ℕ) (d : Db) (p q : Product) (d' : Db)
    → find product_key id d.products ≡ some p
    → Sold user id d q
    → archive_body q d ≡ (ok tt, d')
    → find_product id d' ≡ ok (record p { status = archived })
unfolding archive_body find_product ◌>>=◌
archived_found user id d p q d' here s done = ground (
  arith,
  s.here,
  s.at,
  find-modify product_key q.id id (λ r. record r { status = archived }) d.products (λ r. refl),
  ap (λ (r : Result Error (Unit {0}) × Db). r.1.products) done,
)

-- A deleted product stays in the catalogue, archived, and otherwise as it was.
pub get_product-delete_product :
    (user : User) (id : ℕ) (d : Db) (p : Product) (d' : Db)
    → find product_key id d.products ≡ some p
    → respond (delete_product user id) d ≡ (ok tt, d')
    → respond (get_product id) d' ≡ (ok (record p { status = archived }), d')
unfolding delete_product get_product
get_product-delete_product user id d p d' here h =
    let (q, read, done) = respond-written-ok _ _ d (respond-as_role-ok merchants user _ d h) in
    let s = own_product-Sold user id d q read in
    respond-query _ d'
    ∙ ap (λ (r : Result Error Product). (r, d')) (archived_found user id d p q d' here s done)
