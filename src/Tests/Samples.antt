-- ===== src/Tests/Samples.antt =====
-- A small marketplace: two customers, a seller, an administrator, two products, a promo code.
use making_soa_homework.Base.{ℕ, ◌+◌, ◌/◌, true, none, some, [], ◌∷◌}
use making_soa_homework.Market.Models.{
  role_user, role_seller, role_admin, active, percentage, User, Product, PromoCode, Db,
  OrderCreateRequest, OrderUpdateRequest,
}
use making_soa_homework.Market.Session.{Settings, Context}

abbrev pub customer : User
customer = record { id = 1; email = "ann@shop"; hashed_password = "#a"; role = role_user }

abbrev pub other_customer : User
other_customer = record { id = 2; email = "bob@shop"; hashed_password = "#b"; role = role_user }

abbrev pub seller : User
seller = record { id = 3; email = "eve@shop"; hashed_password = "#e"; role = role_seller }

abbrev pub admin : User
admin = record { id = 4; email = "root@shop"; hashed_password = "#r"; role = role_admin }

abbrev pub tea : Product
tea = record {
  id = 10;
  name = "tea";
  description = none;
  price = 30;
  stock = 7;
  category = "food";
  status = active;
  seller_id = 3;
}

abbrev pub cup : Product
cup = record {
  id = 11;
  name = "cup";
  description = none;
  price = 500;
  stock = 2;
  category = "home";
  status = active;
  seller_id = 3;
}

-- 15 percent, from a ruble on.
abbrev pub spring : PromoCode
spring = record {
  id = 20;
  code = "SPRING";
  discount_type = percentage;
  discount_value = 1500;
  min_order_amount = 100;
  max_uses = 2;
  current_uses = 0;
  valid_from = 0;
  valid_until = 9000000000;
  active = true;
}

-- 15 percent, from nothing on.
abbrev pub small : PromoCode
small = record spring { id = 21; code = "SMALL"; min_order_amount = 0 }

abbrev pub shop : Db
shop = record {
  users = customer ∷ other_customer ∷ seller ∷ admin ∷ [];
  products = tea ∷ cup ∷ [];
  promo_codes = spring ∷ small ∷ [];
  orders = [];
  user_operations = [];
}

abbrev pub settings : Settings
settings = record {
  jwt_secret_key = "change_me_access";
  jwt_refresh_secret_key = "change_me_refresh";
  access_token_expires_minutes = 30;
  refresh_token_expires_days = 14;
  order_rate_limit_minutes = 5;
}

-- A request at an instant, with the identifiers that it draws; a column rounds half up.
abbrev pub at : ℕ → ℕ → Context
at now base = record {
  settings = settings;
  now_rate = now;
  now_promo = now;
  db_now = now;
  new_id = λ k. base + k;
  numeric = λ m. some ((m + 5000) / 10000);
}

abbrev pub basket : OrderCreateRequest
basket = record {
  items =
      record { product_id = 10; quantity = 2 }
      ∷ record { product_id = 11; quantity = 1 }
      ∷ record { product_id = 10; quantity = 3 }
      ∷ [];
  promo_code = some "SPRING";
}

abbrev pub smaller : OrderUpdateRequest
smaller = record { items = record { product_id = 10; quantity = 1 } ∷ [] }

-- More cups than there are.
abbrev pub greedy : OrderCreateRequest
greedy = record { items = record { product_id = 11; quantity = 3 } ∷ []; promo_code = none }

-- One tea, at 30 kopecks.
abbrev pub one_tea : OrderCreateRequest
one_tea = record {
  items = record { product_id = 10; quantity = 1 } ∷ [];
  promo_code = some "SMALL";
}
