-- ===== src/Services/Orders/Saga.antt =====
-- services/order-service/service/service.go: CreateOrder, the saga that reserves each item, pays, and
-- releases what it has reserved if any of that fails. The remote services are a record of three calls
-- on a state of theirs: what internal/shared/httpclient answers is a reply. Times and whether Redis
-- answers are arguments; metrics, logs and spans are left out.
pub mod Calls
pub mod Outcomes
pub mod Stock
pub mod Ledger
pub mod Books
pub mod Replays
use summer_project.Prelude.{
  ℕ, ◌==◌, Bool, true, false, if◌then◌else◌, Option, none, some, List, [], ◌∷◌, ◌++◌, String,
}
use summer_project.Prelude.Int.{ℤ, eqb_ℤ, pos}
use summer_project.Prelude.Text.{str_eq, sprint, show_ℤ}
use summer_project.Prelude.Maps.{Map, lookup, insert, delete}
use summer_project.Shared.AppErrors.{
  AppError, Result, ok, err, with_message, duplicate_order, order_failed,
}
use summer_project.Services.Orders.{
  OrderItem, Order, pending, confirmed, failed, CreateOrderRequest, CreateOrderResponse, Repository,
  create, update, calculate_total, validate_create_request,
}
use summer_project.Services.Orders.Remote.{
  Reply, broken, answered, PaymentData, PaymentReply, pay_broken, pay_answered, Remote, Entry,
  processing, finished, Answers, Service, Claim, fresh, replay, key_of, replayed, claimed, claim,
  drop_key, keep_response, reserve_failure, payment_failure, paid_as, new_id, pending_order,
  failed_order, confirmed_order, confirmation,
}

module _ {S : Type 0} (R : Remote S) where
  -- What the reservations leave: the state, the items reserved, and why it stopped if it did.
  pub record Reserved : Type 0 where
    pub after : S
    pub held : List OrderItem
    pub stopped : Option String

  go_on : S → List OrderItem → Option String → Reserved → Reserved
  go_on s held none rest = rest
  go_on s held (some reason) rest = record { after = s; held = held; stopped = some reason }

  unfoldable pub reserve_items : String → S → List OrderItem → List OrderItem → Reserved
  unfolding go_on
  reserve_items id s held [] = record { after = s; held = held; stopped = none }
  reserve_items id s held (i ∷ rest) =
      let reply = R.reserve_call s id i in
      let others = reserve_items id reply.0 (held ++ i ∷ []) rest in
      go_on reply.0 held (reserve_failure i reply.1) others

  -- What the answer to a release is makes no difference.
  unfoldable pub release_reserved_items : String → S → List OrderItem → S
  release_reserved_items id s [] = s
  release_reserved_items id s (i ∷ rest) = release_reserved_items id (R.release_call s id i).0 rest

  -- The state on a failure: what is held is released, the order is stored as failed, the key dropped.
  abbrev pub fail_order :
      ℤ
      → Bool
      → String
      → Service S
      → Order
      → List OrderItem
      → String
      → Service S × Result CreateOrderResponse
  fail_order later del_up key s o held reason = (
    record {
      remote = release_reserved_items o.order_id s.remote held;
      repo = (update s.repo (failed_order later reason o)).0;
      redis = drop_key del_up key s.redis;
    },
    err (with_message order_failed (sprint ("order " ∷ o.order_id ∷ " failed: " ∷ reason ∷ []))),
  )

  persisted :
      Bool
      → String
      → Service S
      → Order
      → Repository × Option AppError
      → Service S × Result CreateOrderResponse
  persisted set_up key s o (r, some e) = (record s { repo = r }, err e)
  persisted set_up key s o (r, none) = (
    record s { repo = r; redis = keep_response set_up key (confirmation o) s.redis },
    ok (confirmation o),
  )

  settle :
      ℤ
      → Answers
      → String
      → Service S
      → Order
      → List OrderItem
      → PaymentReply
      → Option String
      → Service S × Result CreateOrderResponse
  unfolding persisted
  settle later up key s o held reply (some reason) = fail_order later up.del key s o held reason
  settle later up key s o held reply none =
      let done = confirmed_order later reply o in persisted up.set key s done (update s.repo done)

  pay :
      ℤ
      → Answers
      → String
      → Service S
      → Order
      → List OrderItem
      → Service S × Result CreateOrderResponse
  unfolding settle
  pay later up key s o held =
      let reply = R.pay_call s.remote o.order_id o.total_amount o.currency in
      settle later up key (record s { remote = reply.0 }) o held reply.1 (payment_failure reply.1)

  reserved_then :
      ℤ
      → Answers
      → String
      → Service S
      → Order
      → List OrderItem
      → Option String
      → Service S × Result CreateOrderResponse
  unfolding pay
  reserved_then later up key s o held (some reason) = fail_order later up.del key s o held reason
  reserved_then later up key s o held none = pay later up key s o held

  stored :
      ℤ
      → Answers
      → String
      → Service S
      → Order
      → Repository × Option AppError
      → Service S × Result CreateOrderResponse
  unfolding reserved_then
  stored later up key s o (r, some e) =
      (record s { repo = r; redis = drop_key up.del key s.redis }, err e)
  stored later up key s o (r, none) =
      let got = reserve_items o.order_id s.remote [] o.items in
      reserved_then later up key (record s { remote = got.after; repo = r }) o got.held got.stopped

  admitted :
      ℤ
      → ℤ
      → Answers
      → Service S
      → CreateOrderRequest
      → Map Entry × Claim
      → Service S × Result CreateOrderResponse
  unfolding stored
  admitted now later up s q (redis, replay r) = (record s { redis = redis }, r)
  admitted now later up s q (redis, fresh) =
      stored later up q.idempotency_key (record s { redis = redis }) (pending_order now q)
        (create s.repo (pending_order now q))

  checked :
      ℤ
      → ℤ
      → Answers
      → Service S
      → CreateOrderRequest
      → Option AppError
      → Service S × Result CreateOrderResponse
  unfolding admitted
  checked now later up s q (some e) = (s, err e)
  checked now later up s q none = admitted now later up s q (claim up q.idempotency_key s.redis)

  -- `now` is the time of the order, `later` of its last change.
  unfoldable pub create_order :
      ℤ → ℤ → Answers → Service S → CreateOrderRequest → Service S × Result CreateOrderResponse
  unfolding checked
  create_order now later up s q = checked now later up s q (validate_create_request q)
