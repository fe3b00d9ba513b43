-- ===== src/Tests/Catalogue.antt =====
-- The catalogue.
use making_soa_homework.Base.{◌≡◌, refl, none, some, true, inl, arith}
use making_soa_homework.Base.Table.{find, modify}
use making_soa_homework.Base.Exec.{ok, err, ◌>>=◌}
use making_soa_homework.Market.Models.{User, fixed_amount}
use making_soa_homework.Market.Errors.{database_error}
use making_soa_homework.Market.Session.{query, and_commit, respond}
use making_soa_homework.Market.Access.{denied, require_roles, as_role}
use making_soa_homework.Market.Products.{
  unset, null, to, ProductUpdate, own_product, update_product, delete_product, change_body,
  PromoCodeCreate, promo_body, create_promo_code,
}
use making_soa_homework.Market.Products.Changes.{foreign_product, update_product_null}
use making_soa_homework.Market.Promo.{find_code}
use making_soa_homework.Market.Products.Codes.{Codes, create_promo_code-Codes}
use making_soa_homework.Tests.Samples.{seller, admin, tea, shop, at}

abbrev rival : User
rival = record seller { id = 9 }

abbrev nameless : ProductUpdate
nameless = record {
  name = null;
  description = null;
  price = to 450000;
  stock = unset;
  category = unset;
  status = unset;
}

-- A price that is set is stored in cents, and what is not in the body stays.
described :
    (respond (update_product (at 0 50) seller 10 (record nameless { name = unset })) shop).0
    ≡ ok (record tea { description = none; price = 45 })
unfolding respond query and_commit as_role require_roles own_product change_body ◌>>=◌ find modify
    update_product
described = refl

foreign_product_example :
    (respond (update_product (at 0 50) rival 10 nameless) shop ≡ (err denied, shop))
    × (respond (delete_product rival 10) shop ≡ (err denied, shop))
unfolding find
foreign_product_example =
    foreign_product (at 0 50) rival 10 nameless shop tea refl refl (omega arith)

update_product_null_example :
    respond (update_product (at 0 50) admin 10 nameless) shop ≡ (err database_error, shop)
unfolding find
update_product_null_example =
    update_product_null (at 0 50) admin 10 nameless shop tea refl refl (inl refl)

abbrev summer : PromoCodeCreate
summer = record {
  code = "SUMMER";
  discount_type = fixed_amount;
  discount_value = 1000000;
  min_order_amount = 5000000;
  max_uses = 3;
  valid_from = 0;
  valid_until = 100;
  active = none;
}

summer_found :
    find_code "SUMMER" (respond (create_promo_code (at 0 50) seller summer) shop).1.promo_codes
    ≡ some (record {
      id = 50;
      code = "SUMMER";
      discount_type = fixed_amount;
      discount_value = 100;
      min_order_amount = 500;
      max_uses = 3;
      current_uses = 0;
      valid_from = 0;
      valid_until = 100;
      active = true;
    })
unfolding respond and_commit as_role require_roles promo_body create_promo_code ◌>>=◌ find_code
    query
summer_found = refl

create_promo_code-Codes_example :
    Codes (at 0 50) seller summer shop (respond (create_promo_code (at 0 50) seller summer) shop)
create_promo_code-Codes_example = create_promo_code-Codes (at 0 50) seller summer shop
