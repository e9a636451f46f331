-- ===== src/Services/Orders/Remote.antt =====
-- services/order-service/service/service.go: what CreateOrder meets and keeps: the replies of the remote
-- services, the idempotency keys in Redis, and the order as it is pending, failed and confirmed.
use summer_project.Prelude.{Bool, if◌then◌else◌, Option, none, some, [], ◌∷◌, String}
use summer_project.Prelude.Int.{ℤ, eqb_ℤ, pos}
use summer_project.Prelude.Text.{str_eq, sprint, show_ℤ}
use summer_project.Prelude.Maps.{Map, lookup, insert, delete}
use summer_project.Shared.AppErrors.{Result, ok, err, with_message, duplicate_order}
use summer_project.Services.Orders.{
  OrderItem, Order, pending, confirmed, failed, CreateOrderRequest, CreateOrderResponse, Repository,
  calculate_total,
}

-- What PostJSON returns: an error, or the HTTP status.
pub data Reply : Type 0 where
  broken : String → Reply
  answered : ℤ → Reply

-- The decoded body of an answer of the payment service.
pub record PaymentData : Type 0 where
  pub payment_id : String
  pub status : String
  pub failure_reason : String

pub data PaymentReply : Type 0 where
  pay_broken : String → PaymentReply
  pay_answered : ℤ → PaymentData → PaymentReply

-- The two remote services; S is their state.
pub record Remote (S : Type 0) : Type 0 where
  pub reserve_call : S → String → OrderItem → S × Reply
  pub release_call : S → String → OrderItem → S × Reply
  pub pay_call : S → String → ℤ → String → S × PaymentReply

-- What Redis holds under an idempotency key.
pub data Entry : Type 0 where
  processing : Entry
  finished : CreateOrderResponse → Entry

-- Whether Redis answers SetNX, Get, Delete and Set.
pub record Answers : Type 0 where
  pub set_nx : Bool
  pub get : Bool
  pub del : Bool
  pub set : Bool

pub record Service (S : Type 0) : Type 0 where
  pub remote : S
  pub repo : Repository
  pub redis : Map Entry

pub data Claim : Type 0 where
  fresh : Claim
  replay : Result CreateOrderResponse → Claim

abbrev pub key_of : String → String
key_of key = sprint ("idempotency:order:" ∷ key ∷ [])

unfoldable pub replayed : Entry → Result CreateOrderResponse
replayed processing =
    err (with_message duplicate_order "request is currently being processed, please wait")
replayed (finished r) = ok r

unfoldable pub claimed : Bool → String → Map Entry → Option Entry → Map Entry × Claim
claimed get_up key redis none = (insert key processing redis, fresh)
claimed get_up key redis (some e) = (
  redis,
  replay (
      if get_up
      then replayed e
      else err (with_message duplicate_order "duplicate order submission detected")),
)

-- The idempotency check: only a request with a key, whose SetNX is answered, may be a replay.
unfoldable pub claim : Answers → String → Map Entry → Map Entry × Claim
unfolding claimed replayed
claim up key redis =
    if str_eq key ""
    then (redis, fresh)
    else if up.set_nx
    then claimed up.get (key_of key) redis (lookup (key_of key) redis)
    else (redis, fresh)

-- A key is deleted if the order fails, and keeps the response if it is confirmed.
abbrev pub drop_key : Bool → String → Map Entry → Map Entry
drop_key up key redis =
    if str_eq key "" then redis else if up then delete (key_of key) redis else redis

abbrev pub keep_response : Bool → String → CreateOrderResponse → Map Entry → Map Entry
keep_response up key response redis =
    if str_eq key ""
    then redis
    else if up
    then insert (key_of key) (finished response) redis
    else redis

abbrev pub reserve_failure : OrderItem → Reply → Option String
reserve_failure item (broken e) = some (sprint ("inventory service call failed: " ∷ e ∷ []))
reserve_failure item (answered status) =
    if eqb_ℤ status (pos 200)
    then none
    else some (
        sprint (
          "inventory reservation failed for item "
          ∷ item.item_id
          ∷ " (HTTP "
          ∷ show_ℤ status
          ∷ ")"
          ∷ []))

abbrev pub payment_failure : PaymentReply → Option String
payment_failure (pay_broken e) = some (sprint ("payment service call failed: " ∷ e ∷ []))
payment_failure (pay_answered status body) =
    if eqb_ℤ status (pos 200)
    then (if str_eq body.status "SUCCEEDED"
        then none
        else some (sprint ("payment declined: " ∷ body.failure_reason ∷ [])))
    else some (sprint ("payment service returned HTTP " ∷ show_ℤ status ∷ []))

abbrev pub paid_as : PaymentReply → String
paid_as (pay_broken e) = ""
paid_as (pay_answered status body) = body.payment_id

abbrev pub new_id : ℤ → String
new_id now = sprint ("ord_" ∷ show_ℤ now ∷ [])

abbrev pub pending_order : ℤ → CreateOrderRequest → Order
pending_order now q = record {
  order_id = new_id now;
  customer_id = q.customer_id;
  items = q.items;
  total_amount = calculate_total q.items;
  currency = if str_eq q.currency "" then "USD" else q.currency;
  status = pending;
  payment_id = "";
  failure_reason = "";
  created_at = now;
  updated_at = now;
}

abbrev pub failed_order : ℤ → String → Order → Order
failed_order later reason o = record o {
  status = failed;
  failure_reason = reason;
  updated_at = later;
}

abbrev pub confirmed_order : ℤ → PaymentReply → Order → Order
confirmed_order later reply o = record o {
  status = confirmed;
  payment_id = paid_as reply;
  updated_at = later;
}

abbrev pub confirmation : Order → CreateOrderResponse
confirmation o = record { order = o; message = "order confirmed successfully" }
