-- ===== src/Market/Access.antt =====
-- The guards of the handlers: `_require_order_owner` and `_require_product_owner` of
-- дз_2/app/src/main.py, and the test of `require_roles` in дз_2/app/src/core/dependencies.py.
use making_soa_homework.Base.Exec.{ok, err, ◌>>=◌, ◌>>◌, ask}
use making_soa_homework.Market.Session.{Handler, respond}
use making_soa_homework.Base.{
  Bool, Bool-cases, true, false, ◌≡◌, inl, inr, arith, if◌then◌else◌, ◌==◌, ◌&&◌, ◌||◌, not, List,
  [], ◌∷◌,
}
use making_soa_homework.Market.Models.{
  UserRole, role_user, role_seller, role_admin, User, Product, Order, Db, is_admin, is_seller,
}
use making_soa_homework.Market.Errors.{
  Error, api_error, access_denied, order_ownership_violation, Fallible, raise_if,
}

abbrev pub denied : Error
denied = api_error access_denied 403 "Access denied"

abbrev pub ownership_violation : Error
ownership_violation = api_error order_ownership_violation 403 "Order ownership violation"

unfoldable pub require_order_owner : Order → User → Fallible (Unit {0})
require_order_owner order user =
    raise_if (not (is_admin user.role) && not (order.user_id == user.id)) ownership_violation

unfoldable pub require_product_owner : Product → User → Fallible (Unit {0})
require_product_owner product user =
    raise_if (is_seller user.role && not (product.seller_id == user.id)) denied

abbrev pub same_role : UserRole → UserRole → Bool
same_role role_user role_user = true
same_role role_seller role_seller = true
same_role role_admin role_admin = true
same_role _ _ = false

-- `user.role.value in roles`
unfoldable pub has_role : List UserRole → UserRole → Bool
has_role [] r = false
has_role (s ∷ roles) r = same_role s r || has_role roles r

-- The `checker` that `require_roles(*roles)` returns, on the current user.
unfoldable pub require_roles : List UserRole → User → Fallible (Unit {0})
unfolding has_role
require_roles roles user = raise_if (not (has_role roles user.role)) denied

-- `Depends(require_roles(...))` in front of a handler.
unfoldable pub as_role : {A : Type 0} → List UserRole → User → Handler A → Handler A
as_role roles user h = do ask (λ s. require_roles roles user); h

-- The roles that may work on orders, and those that may work on the catalogue.
abbrev pub customers : List UserRole
customers = role_user ∷ role_admin ∷ []

abbrev pub merchants : List UserRole
merchants = role_seller ∷ role_admin ∷ []

-- Only a role of the list gets to the handler; another one is answered with 403.
pub respond-as_role :
    {A : Type 0} (roles : List UserRole) (user : User) (h : Handler A) (d : Db)
    → respond (as_role roles user h) d
      ≡ (if has_role roles user.role then respond h d else (err denied, d))
unfolding respond as_role require_roles ◌>>=◌
respond-as_role roles user h d = ground arith

pub respond-as_role-ok :
    {A : Type 0} (roles : List UserRole) (user : User) (h : Handler A) (d : Db) {a : A} {d' : Db}
    → respond (as_role roles user h) d ≡ (ok a, d')
    → respond h d ≡ (ok a, d')
respond-as_role-ok roles user h d p = ground (arith, respond-as_role roles user h d)

pub respond-as_role-err :
    {A : Type 0} (roles : List UserRole) (user : User) (h : Handler A) (d : Db) {e : Error}
    {d' : Db}
    → (respond h d ≡ (err e, d') → d' ≡ d)
    → respond (as_role roles user h) d ≡ (err e, d')
    → d' ≡ d
respond-as_role-err roles user h d same p = elim (Bool-cases (has_role roles user.role)) [
  | inl may ↦ same (ground (arith, respond-as_role roles user h d))
  | inr other ↦ ground (arith, respond-as_role roles user h d)
]

pub respond-as_role-allowed :
    {A : Type 0} (roles : List UserRole) (user : User) (h : Handler A) (d : Db) {a : A} {d' : Db}
    → respond (as_role roles user h) d ≡ (ok a, d')
    → has_role roles user.role ≡ true
respond-as_role-allowed roles user h d p = ground (arith, respond-as_role roles user h d)
