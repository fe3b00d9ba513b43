-- ===== src/Migrations/Marketplace.antt =====
-- The catalog under дз_2/app/alembic/versions/9b6b825cc7cb_initial_schema.py, operation by operation.
use making_soa_homework.Base.{◌≡◌, refl, false, [], ◌∷◌, All, select}
use making_soa_homework.Base.Exec.{ok}
use making_soa_homework.Migrations.{
  create_table, drop_table, create_index, drop_index, Catalog, has_text, has_table, has_index,
  enums, none_there, targets_there, points_to, is_referred,
}
use making_soa_homework.Migrations.Initial
use making_soa_homework.Migrations.Steps.{
  steps, steps-nil, steps-cons, Free, keeps_tables, keeps_indexes, keeps_named, created, dropped,
  indexed, removed, one_free,
}

-- The catalog with the tables of the marketplace.
abbrev pub marketplace : Catalog → Catalog
marketplace c = record {
  tables =
      Initial.order_items ∷ Initial.user_operations ∷ Initial.products ∷ Initial.orders
      ∷ Initial.users ∷ Initial.promo_codes ∷ c.tables;
  indexes = Initial.ix_users_email ∷ c.indexes;
  types =
      "operation_type" ∷ "product_status" ∷ "order_status" ∷ "user_role" ∷ "discount_type"
      ∷ c.types;
}

-- The names of the marketplace's schema are free.
pub record IsFree (c : Catalog) : Type 0 where
  pub promo_codes : Free "promo_codes" c
  pub users : Free "users" c
  pub orders : Free "orders" c
  pub products : Free "products" c
  pub user_operations : Free "user_operations" c
  pub order_items : Free "order_items" c
  pub index : has_index "ix_users_email" c.indexes ≡ false
  pub types :
      All
        (λ s. has_text s c.types ≡ false)
        ("discount_type" ∷ "user_role" ∷ "order_status" ∷ "product_status" ∷ "operation_type" ∷ [])

-- The catalog after each operation of the upgrade.
pub upgraded : (c : Catalog) → IsFree c → steps Initial.upgrade c ≡ ok (marketplace c)
unfolding has_text has_table has_index enums targets_there none_there Initial.upgrade
upgraded c free =
    let c1 : Catalog = record c {
      tables = Initial.promo_codes ∷ c.tables;
      types = "discount_type" ∷ c.types;
    } in
    let c2 : Catalog = record c1 {
      tables = Initial.users ∷ c1.tables;
      types = "user_role" ∷ c1.types;
    } in
    let c3 : Catalog = record c2 { indexes = Initial.ix_users_email ∷ c.indexes } in
    let c4 : Catalog = record c3 {
      tables = Initial.orders ∷ c3.tables;
      types = "order_status" ∷ c3.types;
    } in
    let c5 : Catalog = record c4 {
      tables = Initial.products ∷ c4.tables;
      types = "product_status" ∷ c4.types;
    } in
    let c6 : Catalog = record c5 {
      tables = Initial.user_operations ∷ c5.tables;
      types = "operation_type" ∷ c5.types;
    } in
    steps-cons (create_table Initial.promo_codes) _ c c1 _
      (created Initial.promo_codes c free.promo_codes.absent
        (one_free "discount_type" c.types free.types.0) refl)
      (steps-cons (create_table Initial.users) _ c1 c2 _
        (created Initial.users c1 free.users.absent (one_free "user_role" c1.types free.types.1.0)
          refl)
        (steps-cons (create_index Initial.ix_users_email) _ c2 c3 _
          (indexed Initial.ix_users_email c2 refl free.index)
          (steps-cons (create_table Initial.orders) _ c3 c4 _
            (created Initial.orders c3 free.orders.absent
              (one_free "order_status" c3.types free.types.1.1.0) refl)
            (steps-cons (create_table Initial.products) _ c4 c5 _
              (created Initial.products c4 free.products.absent
                (one_free "product_status" c4.types free.types.1.1.1.0) refl)
              (steps-cons (create_table Initial.user_operations) _ c5 c6 _
                (created Initial.user_operations c5 free.user_operations.absent
                  (one_free "operation_type" c5.types free.types.1.1.1.1.0) refl)
                (steps-cons (create_table Initial.order_items) [] c6 (marketplace c) _
                  (created Initial.order_items c6 free.order_items.absent refl refl)
                  (steps-nil (marketplace c))))))))

-- The catalog after each operation of the downgrade: the types of the columns stay.
pub downgraded :
    (c : Catalog)
    → IsFree c
    → steps Initial.downgrade (marketplace c) ≡ ok (record c { types = (marketplace c).types })
unfolding has_table has_index is_referred points_to select Initial.downgrade
downgraded c free =
    let m = marketplace c in
    let end : Catalog = record c { types = m.types } in
    let d6 : Catalog = record end { tables = Initial.promo_codes ∷ c.tables } in
    let d5 : Catalog = record d6 { tables = Initial.users ∷ d6.tables } in
    let d4 : Catalog = record d5 { indexes = Initial.ix_users_email ∷ c.indexes } in
    let d3 : Catalog = record d4 { tables = Initial.orders ∷ d4.tables } in
    let d2 : Catalog = record d3 { tables = Initial.products ∷ d3.tables } in
    let d1 : Catalog = record d2 { tables = Initial.user_operations ∷ d2.tables } in
    steps-cons (drop_table "order_items") _ m d1 _
      (dropped "order_items" m d1 refl free.order_items.unreferred
        (rw (keeps_tables "order_items" c.tables free.order_items.absent) refl)
        (rw (keeps_indexes "order_items" c.indexes free.order_items.unindexed) refl) refl)
      (steps-cons (drop_table "user_operations") _ d1 d2 _
        (dropped "user_operations" d1 d2 refl free.user_operations.unreferred
          (rw (keeps_tables "user_operations" c.tables free.user_operations.absent) refl)
          (rw (keeps_indexes "user_operations" c.indexes free.user_operations.unindexed) refl) refl)
        (steps-cons (drop_table "products") _ d2 d3 _
          (dropped "products" d2 d3 refl free.products.unreferred
            (rw (keeps_tables "products" c.tables free.products.absent) refl)
            (rw (keeps_indexes "products" c.indexes free.products.unindexed) refl) refl)
          (steps-cons (drop_table "orders") _ d3 d4 _
            (dropped "orders" d3 d4 refl free.orders.unreferred
              (rw (keeps_tables "orders" c.tables free.orders.absent) refl)
              (rw (keeps_indexes "orders" c.indexes free.orders.unindexed) refl) refl)
            (steps-cons (drop_index "ix_users_email") _ d4 d5 _
              (removed "ix_users_email" d4 d5 refl refl
                (rw (keeps_named "ix_users_email" c.indexes free.index) refl) refl)
              (steps-cons (drop_table "users") _ d5 d6 _
                (dropped "users" d5 d6 refl free.users.unreferred
                  (rw (keeps_tables "users" c.tables free.users.absent) refl)
                  (rw (keeps_indexes "users" c.indexes free.users.unindexed) refl) refl)
                (steps-cons (drop_table "promo_codes") [] d6 end _
                  (dropped "promo_codes" d6 end refl free.promo_codes.unreferred
                    (rw (keeps_tables "promo_codes" c.tables free.promo_codes.absent) refl)
                    (rw (keeps_indexes "promo_codes" c.indexes free.promo_codes.unindexed) refl)
                    refl)
                  (steps-nil end)))))))
