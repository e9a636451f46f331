-- ===== src/Services/Orders/Saga/Replays.antt =====
-- A confirmed order that is sent again under its idempotency key is not carried out again.
use summer_project.Prelude.{
  Bool, true, false, ◌≡◌, refl, sym, ◌∙◌, ap, Option, none, some, List, [], String, arith,
}
use summer_project.Prelude.Int.{ℤ}
use summer_project.Prelude.Text.{str_eq}
use summer_project.Prelude.Maps.{Map, lookup, lookup-insert_self}
use summer_project.Shared.AppErrors.{AppError, Result, ok}
use summer_project.Services.Orders.{
  OrderItem, Order, CreateOrderRequest, CreateOrderResponse, Repository, create,
  validate_create_request,
}
use summer_project.Services.Orders.Saga.{
  reserve_items, persisted, settle, pay, reserved_then, stored, admitted, checked, create_order,
}
use summer_project.Services.Orders.Remote.{
  PaymentReply, Remote, Service, Answers, Entry, finished, Claim, fresh, replay, claim, claimed,
  replayed, key_of, payment_failure, pending_order, confirmation,
}

-- If the run is answered by an order, that answer is kept under the key.
abbrev Kept : {S : Type 0} → String → Service S × Result CreateOrderResponse → Type 0
Kept key run =
    (r : CreateOrderResponse) → run.1 ≡ ok r → lookup (key_of key) run.0.redis ≡ some (finished r)

module _ {S : Type 0} (R : Remote S) (up : Answers) (key : String) (sets : up.set ≡ true)
    (named : str_eq key "" ≡ false) where
  persisted-Kept :
      (s : Service S) (o : Order) (c : Repository × Option AppError)
      → Kept key (persisted R up.set key s o c)
  unfolding persisted
  persisted-Kept s o (r, some e) response h = cc
  persisted-Kept s o (r, none) response h =
      rw (named, sets)
        (lookup-insert_self (key_of key) (finished (confirmation o)) s.redis ∙ ground (arith, h))

  settle-Kept :
      (later : ℤ) (s : Service S) (o : Order) (held : List OrderItem) (reply : PaymentReply)
      (problem : Option String)
      → Kept key (settle R later up key s o held reply problem)
  unfolding settle
  settle-Kept later s o held reply (some reason) response h = cc
  settle-Kept later s o held reply none response h = persisted-Kept s _ _ response h

  reserved_then-Kept :
      (later : ℤ) (s : Service S) (o : Order) (held : List OrderItem) (stopped : Option String)
      → Kept key (reserved_then R later up key s o held stopped)
  unfolding reserved_then pay
  reserved_then-Kept later s o held (some reason) response h = cc
  reserved_then-Kept later s o held none response h =
      let result = R.pay_call s.remote o.order_id o.total_amount o.currency in
      settle-Kept later (record s { remote = result.0 }) o held result.1 (payment_failure result.1)
        response h

  stored-Kept :
      (later : ℤ) (s : Service S) (o : Order) (c : Repository × Option AppError)
      → Kept key (stored R later up key s o c)
  unfolding stored
  stored-Kept later s o (r, some e) response h = cc
  stored-Kept later s o (r, none) response h =
      let got = reserve_items R o.order_id s.remote [] o.items in
      reserved_then-Kept later (record s { remote = got.after; repo = r }) o got.held got.stopped
        response h

claimed_replayed :
    (get_up : Bool) (key : String) (redis : Map Entry) (o : Option Entry) (r : CreateOrderResponse)
    → lookup key redis ≡ o
    → (claimed get_up key redis o).1 ≡ replay (ok r)
    → lookup key (claimed get_up key redis o).0 ≡ some (finished r)
unfolding claimed replayed
claimed_replayed get_up key redis none r e h = cc
claimed_replayed get_up key redis (some entry) r e h = ground (arith, e)

claim_replayed :
    (up : Answers) (key : String) (redis : Map Entry) (r : CreateOrderResponse)
    → (claim up key redis).1 ≡ replay (ok r)
    → lookup (key_of key) (claim up key redis).0 ≡ some (finished r)
unfolding claim
claim_replayed up key redis r h =
    ground (arith, claimed_replayed up.get (key_of key) redis (lookup (key_of key) redis) r refl)

module _ {S : Type 0} (R : Remote S) (up : Answers) (q : CreateOrderRequest) (sets : up.set ≡ true)
    (named : str_eq q.idempotency_key "" ≡ false) where
  admitted-Kept :
      (now later : ℤ) (s : Service S) (c : Map Entry × Claim)
      → claim up q.idempotency_key s.redis ≡ c
      → Kept q.idempotency_key (admitted R now later up s q c)
  unfolding admitted
  admitted-Kept now later s (redis, fresh) e response h =
      stored-Kept R up q.idempotency_key sets named later (record s { redis = redis })
        (pending_order now q) (create s.repo (pending_order now q)) response h
  admitted-Kept now later s (redis, replay r) e response h =
      ap (λ c. lookup (key_of q.idempotency_key) c.0) (sym e)
      ∙ claim_replayed up q.idempotency_key s.redis response (ap (λ c. c.1) e ∙ ap replay h)

  checked-Kept :
      (now later : ℤ) (s : Service S) (problem : Option AppError)
      → Kept q.idempotency_key (checked R now later up s q problem)
  unfolding checked
  checked-Kept now later s (some e) response h = cc
  checked-Kept now later s none response h = admitted-Kept now later s _ refl response h

  create_order-Kept :
      (now later : ℤ) (s : Service S) → Kept q.idempotency_key (create_order R now later up s q)
  unfolding create_order
  create_order-Kept now later s response h = checked-Kept now later s _ response h

claim_finished :
    (up : Answers) (key : String) (redis : Map Entry) (r : CreateOrderResponse)
    → up.set_nx ≡ true
    → up.get ≡ true
    → str_eq key "" ≡ false
    → lookup (key_of key) redis ≡ some (finished r)
    → claim up key redis ≡ (redis, replay (ok r))
unfolding claim claimed replayed
claim_finished up key redis r asks gets named e =
    rw (named, asks, e) (rw (claimed, gets, replayed) refl)

module _ {S : Type 0} (R : Remote S) where
  replay_answer :
      (now later : ℤ) (up : Answers) (s : Service S) (q : CreateOrderRequest)
      (r : CreateOrderResponse)
      → validate_create_request q ≡ none
      → claim up q.idempotency_key s.redis ≡ (s.redis, replay (ok r))
      → create_order R now later up s q ≡ (s, ok r)
  unfolding create_order checked admitted
  replay_answer now later up s q r valid e =
      rw (valid, checked) (ap (admitted R now later up s q) e)

  -- An order with an idempotency key that was answered by a confirmed order, and whose answer Redis
  -- took, is answered the same if a valid request comes again with the key, with Redis answering:
  -- no remote service is called and nothing else changes.
  pub create_order_again :
      (now later now_again later_again : ℤ) (up up_again : Answers) (s : Service S)
      (q again : CreateOrderRequest) (r : CreateOrderResponse)
      → up.set ≡ true
      → up_again.set_nx ≡ true
      → up_again.get ≡ true
      → str_eq q.idempotency_key "" ≡ false
      → again.idempotency_key ≡ q.idempotency_key
      → validate_create_request again ≡ none
      → (create_order R now later up s q).1 ≡ ok r
      → let after = (create_order R now later up s q).0 in
        create_order R now_again later_again up_again after again ≡ (after, ok r)
  create_order_again now later now_again later_again up up_again s q again r sets asks gets named
        same valid e =
      replay_answer now_again later_again up_again _ again r valid (
        rw same (
          claim_finished up_again q.idempotency_key _ r asks gets named
            (create_order-Kept R up q sets named now later s r e)))
