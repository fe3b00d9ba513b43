-- ===== src/Tests/Http.antt =====
-- Requests at the edge of the marketplace.
use making_soa_homework.Base.{ℕ, ◌+◌, ◌≡◌, refl, Option, some, none, List, [], ◌∷◌, select}
use making_soa_homework.Base.Exec.{ok, err}
use making_soa_homework.Market.Http.Validation.{named, position, dotted, validation_error_handler}
use making_soa_homework.Market.Http.Json.{letters, object, empty, member, mask, hide}
use making_soa_homework.Market.Http.Log.{
  Request, Response, Moment, Logs, LogRecord, parsed, not_utf8, json, logged_body, log_requests,
  record_of, log_requests-ok,
}
use making_soa_homework.Market.Http.Responses.{
  answered, endpoint, to_order_response, post_orders, get_orders, get_orders-post_orders,
}
use making_soa_homework.Tests.Orders.{opened, basket_order, ordered_shop}
use making_soa_homework.Tests.Samples.{customer, shop, at, basket}

abbrev login_request : Request
login_request = record {
  method = "POST";
  path = "/auth/login";
  body =
      parsed
        (object (member "email" (letters "ann@shop") (member "password" (letters "secret") empty)));
}

abbrev broken_request : Request
broken_request = record { method = "POST"; path = "/orders"; body = not_utf8 }

abbrev moment : Moment
moment = record { request_id = "7f"; duration_ms = 3; timestamp = "2026-03-01T00:00:00+00:00" }

-- A handler that counts its calls.
abbrev counting : ℕ → (Response × Option ℕ) × ℕ
counting n = ((record { status_code = 200; request_id = none }, none), n + 1)

abbrev login_log : List LogRecord
login_log =
    record_of moment login_request (record { status_code = 200; request_id = none }) none
      (some (
        json
          (object (member "email" (letters "ann@shop") (member "password" (letters "***") empty)))))
    ∷ []

login_logged :
    log_requests moment login_request counting 4
    ≡ (ok (record { status_code = 200; request_id = some "7f" }), 5, login_log)
unfolding log_requests logged_body mask hide
login_logged = refl

log_requests-ok_example :
    Logs login_request
      (counting 4)
      (record { status_code = 200; request_id = some "7f" })
      5
      login_log
log_requests-ok_example = log_requests-ok moment login_request counting 4 _ 5 login_log login_logged

-- A body that is not UTF-8 fails behind the handler.
broken_body : log_requests moment broken_request counting 4 ≡ (err tt, 5, [])
unfolding log_requests logged_body
broken_body = refl

basket_posted :
    post_orders (at 1000 100) customer basket shop
    ≡ (answered 201 (to_order_response basket_order), ordered_shop)
unfolding opened endpoint to_order_response
basket_posted = refl

get_orders-post_orders_example :
    (◌≡◌ {A = ℕ} 201 201)
    × (get_orders customer 100 ordered_shop
        ≡ (answered 200 (to_order_response basket_order), ordered_shop))
unfolding to_order_response
get_orders-post_orders_example =
    get_orders-post_orders (at 1000 100) customer basket shop 201 (to_order_response basket_order)
      ordered_shop basket_posted

-- A missing quantity in the second line of an order, and an error without a place.
refused_fields :
    validation_error_handler
      (λ n. "1")
      (record {
        loc = some (named "body" ∷ named "items" ∷ position 1 ∷ named "quantity" ∷ []);
        msg = some "Field required";
      }
        ∷ record { loc = none; msg = none }
        ∷ [])
    ≡ record {
      status_code = 400;
      error_code = "VALIDATION_ERROR";
      message = "Validation error";
      fields =
          record { field = "items.1.quantity"; message = "Field required" }
          ∷ record { field = "body"; message = "Invalid value" }
          ∷ [];
    }
unfolding validation_error_handler dotted select
refused_fields = refl
