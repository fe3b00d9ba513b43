-- ===== src/Migrations/Initial.antt =====
-- The schema of the marketplace: дз_2/app/alembic/versions/9b6b825cc7cb_initial_schema.py.
use making_soa_homework.Base.{true, false, none, some, String, List, [], ◌∷◌}
use making_soa_homework.Migrations.{
  ColumnType, uuid, integer, boolean, timestamp_tz, varchar, numeric, enum, Column, TableDef, Index,
  Operation, create_table, create_index, drop_table, drop_index,
}

abbrev required : String → ColumnType → Column
required name kind = record { name = name; kind = kind; nullable = false; server_default = none }

abbrev optional : String → ColumnType → Column
optional name kind = record { name = name; kind = kind; nullable = true; server_default = none }

-- A time that the database fills.
abbrev filled : String → Column
filled name = record {
  name = name;
  kind = timestamp_tz;
  nullable = false;
  server_default = some "now()";
}

abbrev pub promo_codes : TableDef
promo_codes = record {
  name = "promo_codes";
  columns =
      required "id" uuid
      ∷ required "code" (varchar 20)
      ∷ required "discount_type" (enum "discount_type" ("PERCENTAGE" ∷ "FIXED_AMOUNT" ∷ []))
      ∷ required "discount_value" (numeric 12 2)
      ∷ required "min_order_amount" (numeric 12 2)
      ∷ required "max_uses" integer
      ∷ required "current_uses" integer
      ∷ required "valid_from" timestamp_tz
      ∷ required "valid_until" timestamp_tz
      ∷ required "active" boolean
      ∷ filled "created_at"
      ∷ [];
  primary_key = "id" ∷ [];
  unique = "code" ∷ [];
  foreign_keys = [];
}

abbrev pub users : TableDef
users = record {
  name = "users";
  columns =
      required "id" uuid
      ∷ required "email" (varchar 255)
      ∷ required "hashed_password" (varchar 255)
      ∷ required "role" (enum "user_role" ("USER" ∷ "SELLER" ∷ "ADMIN" ∷ []))
      ∷ filled "created_at"
      ∷ [];
  primary_key = "id" ∷ [];
  unique = [];
  foreign_keys = [];
}

abbrev pub orders : TableDef
orders = record {
  name = "orders";
  columns =
      required "id" uuid
      ∷ required "user_id" uuid
      ∷ required "status" (
          enum "order_status"
            ("CREATED" ∷ "PAYMENT_PENDING" ∷ "PAID" ∷ "SHIPPED" ∷ "COMPLETED" ∷ "CANCELED" ∷ []))
      ∷ optional "promo_code_id" uuid
      ∷ required "total_amount" (numeric 12 2)
      ∷ required "discount_amount" (numeric 12 2)
      ∷ filled "created_at"
      ∷ filled "updated_at"
      ∷ [];
  primary_key = "id" ∷ [];
  unique = [];
  foreign_keys =
      record { column = "promo_code_id"; table = "promo_codes" }
      ∷ record { column = "user_id"; table = "users" }
      ∷ [];
}

abbrev pub products : TableDef
products = record {
  name = "products";
  columns =
      required "id" uuid
      ∷ required "name" (varchar 255)
      ∷ optional "description" (varchar 4000)
      ∷ required "price" (numeric 12 2)
      ∷ required "stock" integer
      ∷ required "category" (varchar 100)
      ∷ required "status" (enum "product_status" ("ACTIVE" ∷ "INACTIVE" ∷ "ARCHIVED" ∷ []))
      ∷ required "seller_id" uuid
      ∷ filled "created_at"
      ∷ filled "updated_at"
      ∷ [];
  primary_key = "id" ∷ [];
  unique = [];
  foreign_keys = record { column = "seller_id"; table = "users" } ∷ [];
}

abbrev pub user_operations : TableDef
user_operations = record {
  name = "user_operations";
  columns =
      required "id" uuid
      ∷ required "user_id" uuid
      ∷ required "operation_type" (enum "operation_type" ("CREATE_ORDER" ∷ "UPDATE_ORDER" ∷ []))
      ∷ filled "created_at"
      ∷ [];
  primary_key = "id" ∷ [];
  unique = [];
  foreign_keys = record { column = "user_id"; table = "users" } ∷ [];
}

abbrev pub order_items : TableDef
order_items = record {
  name = "order_items";
  columns =
      required "id" uuid
      ∷ required "order_id" uuid
      ∷ required "product_id" uuid
      ∷ required "quantity" integer
      ∷ required "price_at_order" (numeric 12 2)
      ∷ [];
  primary_key = "id" ∷ [];
  unique = [];
  foreign_keys =
      record { column = "order_id"; table = "orders" }
      ∷ record { column = "product_id"; table = "products" }
      ∷ [];
}

abbrev pub ix_users_email : Index
ix_users_email = record {
  name = "ix_users_email";
  table = "users";
  columns = "email" ∷ [];
  unique = true;
}

unfoldable pub upgrade : List Operation
upgrade =
    create_table promo_codes
    ∷ create_table users
    ∷ create_index ix_users_email
    ∷ create_table orders
    ∷ create_table products
    ∷ create_table user_operations
    ∷ create_table order_items
    ∷ []

unfoldable pub downgrade : List Operation
downgrade =
    drop_table "order_items"
    ∷ drop_table "user_operations"
    ∷ drop_table "products"
    ∷ drop_table "orders"
    ∷ drop_index "ix_users_email"
    ∷ drop_table "users"
    ∷ drop_table "promo_codes"
    ∷ []
