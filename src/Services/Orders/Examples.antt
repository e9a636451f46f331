-- ===== src/Services/Orders/Examples.antt =====
-- An order of two items on an inventory that has them, or has too few, and the theorems at it.
use summer_project.Prelude.{◌≡◌, refl, true, none, List, [], ◌∷◌, ◌⊎◌, ◌<◌, ◌^◌, arith, String}
use summer_project.Prelude.Int64.{wrap_int64}
use summer_project.Prelude.Int.{ℤ, pos, ◌+ℤ◌, ◌-ℤ◌, ◌*ℤ◌}
use summer_project.Prelude.Text.{show_ℤ}
use summer_project.Prelude.Maps.{lookup, insert, delete}
use summer_project.Shared.AppErrors.{Result, ok}
use summer_project.Services.Inventory as Inventory
use summer_project.Services.Inventory.{reserve_stock, release_stock, reserve, release, get}
use summer_project.Services.Inventory.Stock.{IsStocked}
use summer_project.Services.Orders.{
  OrderItem, CreateOrderRequest, CreateOrderResponse, confirmed, calculate_total,
  validate_create_request, create, update,
}
use summer_project.Services.Orders.Totals.{calculate_total_exact, exact_total}
use summer_project.Services.Orders.Saga.{create_order, reserve_items, release_reserved_items}
use summer_project.Services.Orders.Remote.{
  PaymentReply, pay_answered, Answers, Service, pending_order, claim, answered,
}
use summer_project.Services.Orders.Saga.Calls.{Event, recorded, asked, released}
use summer_project.Services.Orders.Saga.Outcomes.{Confirmed, Failed, create_order-Outcome}
use summer_project.Services.Orders.Saga.Stock.{inventory_remote, reply_of}
use summer_project.Services.Orders.Saga.Books.{OrderBooked, create_order-OrderBooked}
use summer_project.Services.Orders.Saga.Replays.{create_order_again}

abbrev laptops : OrderItem
laptops = record { item_id = "SKU-001"; quantity = pos 2; unit_price = pos 90_000 }

abbrev mice : OrderItem
mice = record { item_id = "SKU-002"; quantity = pos 3; unit_price = pos 1_000 }

abbrev ask : CreateOrderRequest
ask = record {
  customer_id = "customer-1";
  items = laptops ∷ mice ∷ [];
  currency = "";
  idempotency_key = "key-1";
}

abbrev all_up : Answers
all_up = record { set_nx = true; get = true; del = true; set = true }

ask_valid : validate_create_request ask ≡ none
unfolding validate_create_request
ask_valid = refl

ask_fits : exact_total (laptops ∷ mice ∷ []) < 2 ^ 63
unfolding exact_total
ask_fits = omega arith

calculate_total_exact_example : calculate_total (laptops ∷ mice ∷ []) ≡ pos 183_000
unfolding exact_total
calculate_total_exact_example = calculate_total_exact ask ask_valid ask_fits

-- Two quantities of 2^32 at a price of 2^31 wrap to nothing.
overflow_test :
    calculate_total (
      record { item_id = "a"; quantity = pos (2 ^ 32); unit_price = pos (2 ^ 31) }
      ∷ record { item_id = "a"; quantity = pos (2 ^ 32); unit_price = pos (2 ^ 31) }
      ∷ [])
    ≡ pos 0
unfolding calculate_total wrap_int64 ◌+ℤ◌ ◌*ℤ◌
overflow_test = refl

abbrev stock : ℤ → Inventory.Service
stock n = record {
  repo =
      (
        "SKU-001",
        record {
          item_id = "SKU-001";
          name = "Laptop";
          quantity = pos 5;
          reserved = pos 1;
          updated_at = pos 0;
        },
      )
      ∷ (
        "SKU-002",
        record {
          item_id = "SKU-002";
          name = "Mouse";
          quantity = n;
          reserved = pos 0;
          updated_at = pos 0;
        },
      )
      ∷ [];
  cache = [];
}

stock-IsStocked : IsStocked (stock (pos 2)).repo
unfolding lookup
stock-IsStocked id item e = ground arith

abbrev pays : String → ℤ → String → PaymentReply
pays id amount currency =
    pay_answered (pos 200)
      (record { payment_id = "pay_1"; status = "SUCCEEDED"; failure_reason = "" })

abbrev started : {S : Type 0} → S → Service S
started s = record { remote = s; repo = []; redis = [] }

-- There are too few mice: the laptops are given back.
create_order-OrderBooked_example : OrderBooked (started (stock (pos 2))) all_up ask (
    create_order
      (inventory_remote (pos 7) true pays)
      (pos 5)
      (pos 9)
      all_up
      (started (stock (pos 2)))
      ask)
create_order-OrderBooked_example =
    create_order-OrderBooked (pos 7) true pays (pos 5) (pos 9) all_up (started (stock (pos 2))) ask
      stock-IsStocked

abbrev calls : (ℤ → List Event)
calls n =
    (create_order (recorded (inventory_remote (pos 7) true pays)) (pos 5) (pos 9) all_up
      (started (stock n, [])) ask).0.remote.1

failed_test :
    calls (pos 2)
    ≡ asked laptops (answered (pos 200)) ∷ asked mice (answered (pos 409)) ∷ released laptops ∷ []
unfolding create_order validate_create_request claim create update lookup insert delete
    reserve_items release_reserved_items recorded inventory_remote reply_of reserve_stock
    release_stock reserve release get calculate_total ◌+ℤ◌ ◌-ℤ◌ ◌*ℤ◌ show_ℤ wrap_int64
failed_test = refl

create_order-Outcome_example :
    let run =
      create_order
        (recorded (inventory_remote (pos 7) true pays))
        (pos 5)
        (pos 9)
        all_up
        (started (stock (pos 9), []))
        ask in
    let o = pending_order (pos 5) ask in
    ((run.0.remote.1 ≡ []) × (run.0.repo ≡ [])) ⊎ (Confirmed (pos 9) o run ⊎ Failed (pos 9) o run)
create_order-Outcome_example =
    create_order-Outcome (inventory_remote (pos 7) true pays) (pos 5) (pos 9) all_up
      (started (stock (pos 9), [])) ask refl

abbrev confirmed_run : Service Inventory.Service × Result CreateOrderResponse
confirmed_run =
    create_order (inventory_remote (pos 7) true pays) (pos 5) (pos 9) all_up
      (started (stock (pos 9))) ask

abbrev answer : CreateOrderResponse
answer = record {
  order = record (pending_order (pos 5) ask) {
    status = confirmed;
    payment_id = "pay_1";
    updated_at = pos 9;
  };
  message = "order confirmed successfully";
}

confirmed_test : confirmed_run.1 ≡ ok answer
unfolding create_order validate_create_request claim create update lookup insert delete
    reserve_items release_reserved_items inventory_remote reply_of reserve_stock release_stock
    reserve release get calculate_total ◌+ℤ◌ ◌-ℤ◌ ◌*ℤ◌ show_ℤ wrap_int64
confirmed_test = refl

create_order_again_example :
    create_order (inventory_remote (pos 7) true pays) (pos 25) (pos 26) all_up confirmed_run.0 ask
    ≡ (confirmed_run.0, ok answer)
create_order_again_example =
    create_order_again (inventory_remote (pos 7) true pays) (pos 5) (pos 9) (pos 25) (pos 26) all_up
      all_up (started (stock (pos 9))) ask ask answer refl refl refl refl refl ask_valid
      confirmed_test
