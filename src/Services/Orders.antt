-- ===== src/Services/Orders.antt =====
-- services/order-service/models and repository: orders, their total and their store, and the test of
-- a request. Amounts are Go's int64, whose sums and products wrap.
pub mod Totals
pub mod Remote
pub mod Saga
mod Examples
use summer_project.Prelude.{
  ℕ, suc, ◌+◌, ◌-◌, ◌*◌, ◌%◌, ◌^◌, Bool, true, false, if◌then◌else◌, ltb, Option, none, some, List,
  [], ◌∷◌, String,
}
use summer_project.Prelude.Int64.{wrap_int64}
use summer_project.Prelude.Int.{ℤ, pos, negsuc, sub_ℕ, ◌+ℤ◌, ◌*ℤ◌, ltb_ℤ, leb_ℤ}
use summer_project.Prelude.Text.{str_eq, sprint, show_ℕ, show_ℤ}
use summer_project.Prelude.Maps.{Map, lookup, insert}
use summer_project.Shared.AppErrors.{
  AppError, Result, ok, err, with_message, duplicate_order, order_not_found, order_validation,
}

pub data OrderStatus : Type 0 where
  pending confirmed failed cancelled : OrderStatus

pub record OrderItem : Type 0 where
  pub item_id : String
  pub quantity : ℤ
  pub unit_price : ℤ

pub record Order : Type 0 where
  pub order_id : String
  pub customer_id : String
  pub items : List OrderItem
  pub total_amount : ℤ
  pub currency : String
  pub status : OrderStatus
  pub payment_id : String
  pub failure_reason : String
  pub created_at : ℤ
  pub updated_at : ℤ

pub record CreateOrderRequest : Type 0 where
  pub customer_id : String
  pub items : List OrderItem
  pub currency : String
  pub idempotency_key : String

pub record CreateOrderResponse : Type 0 where
  pub order : Order
  pub message : String

abbrev pub Repository : Type 0
Repository = Map Order

create_absent : Repository → Order → Option Order → Repository × Option AppError
create_absent r o none = (insert o.order_id o r, none)
create_absent r o (some held) =
    (r, some (with_message duplicate_order (sprint ("order already exists: " ∷ o.order_id ∷ []))))

pub create : Repository → Order → Repository × Option AppError
unfolding create_absent
create r o = create_absent r o (lookup o.order_id r)

found : String → Option Order → Result Order
found id none = err (with_message order_not_found (sprint ("order not found: " ∷ id ∷ [])))
found id (some o) = ok o

pub get_by_id : Repository → String → Result Order
unfolding found
get_by_id r id = found id (lookup id r)

update_present : Repository → Order → Option Order → Repository × Option AppError
update_present r o none = (
  r,
  some (
      with_message order_not_found (sprint ("cannot update: order not found: " ∷ o.order_id ∷ []))),
)
update_present r o (some held) = (insert o.order_id o r, none)

pub update : Repository → Order → Repository × Option AppError
unfolding update_present
update r o = update_present r o (lookup o.order_id r)

add_items : ℤ → List OrderItem → ℤ
add_items total [] = total
add_items total (i ∷ rest) =
    add_items (wrap_int64 (total +ℤ wrap_int64 (i.quantity *ℤ i.unit_price))) rest

pub calculate_total : List OrderItem → ℤ
unfolding add_items
calculate_total items = add_items (pos 0) items

abbrev at_item : ℕ → String → AppError
at_item i text = with_message order_validation (sprint ("items[" ∷ show_ℕ i ∷ "]." ∷ text ∷ []))

abbrev item_problem : ℕ → OrderItem → Option AppError
item_problem i item =
    if str_eq item.item_id ""
    then some (at_item i "item_id is required")
    else if leb_ℤ item.quantity (pos 0)
    then some (at_item i (sprint ("quantity must be positive, got " ∷ show_ℤ item.quantity ∷ [])))
    else if ltb_ℤ item.unit_price (pos 0)
    then some (at_item i "unit_price must not be negative")
    else none

or_else : Option AppError → Option AppError → Option AppError
or_else (some e) next = some e
or_else none next = next

items_problem : ℕ → List OrderItem → Option AppError
unfolding or_else
items_problem i [] = none
items_problem i (item ∷ rest) = or_else (item_problem i item) (items_problem (suc i) rest)

abbrev none_given : List OrderItem → Bool
none_given [] = true
none_given (item ∷ rest) = false

pub validate_create_request : CreateOrderRequest → Option AppError
unfolding items_problem
validate_create_request q =
    if str_eq q.customer_id ""
    then some (with_message order_validation "customer_id is required")
    else if none_given q.items
    then some (with_message order_validation "items must not be empty")
    else items_problem 0 q.items
