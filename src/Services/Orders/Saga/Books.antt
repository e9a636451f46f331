-- ===== src/Services/Orders/Saga/Books.antt =====
-- An order that fails leaves the stock as it was; an order that is confirmed takes what it names.
use summer_project.Prelude.{
  Bool, ◌≡◌, refl, subst, ◌∙◌, ap, All, inl, inr, Option, none, some, List, [], String,
  Option-cases,
}
use summer_project.Prelude.Int.{ℤ}
use summer_project.Prelude.Maps.{Map, lookup, insert, lookup-insert_self}
use summer_project.Shared.AppErrors.{AppError, Result, ok, err}
use summer_project.Services.Inventory as Inventory
use summer_project.Services.Inventory.Stock.{IsStocked}
use summer_project.Services.Inventory.Effects.{raised, unraised, present}
use summer_project.Services.Orders.{
  OrderItem, Order, CreateOrderRequest, CreateOrderResponse, create,
}
use summer_project.Services.Orders.Saga.{
  fail_order, persisted, settle, pay, reserved_then, stored, admitted, checked, create_order,
}
use summer_project.Services.Orders.Remote.{
  PaymentReply, Remote, Service, Answers, Entry, Claim, fresh, replay, claim, pending_order,
  confirmed_order,
}
use summer_project.Services.Orders.Saga.Outcomes.{update_stored, create_new, create_held}
use summer_project.Services.Orders.Saga.Stock.{
  inventory_remote, amount, Held, Base, Holds, reserved_at,
}
use summer_project.Services.Orders.Saga.Ledger.{reserve_items-Stocked, release_reserved_items-Holds}

abbrev pub BookRun : Type 0
BookRun = Service Inventory.Service × Result CreateOrderResponse

-- What a run comes to on the stock, against its levels before: an error leaves each as it was, and an
-- order that is confirmed raises each by what the order names of the item.
pub data Booked (base : String → Option ℤ) (items : List OrderItem) (run : BookRun) : Type 0 where
  untouched :
      (e : AppError)
      → run.1 ≡ err e
      → ((id : String) → reserved_at run.0.remote id ≡ base id)
      → Booked base items run
  taken :
      (r : CreateOrderResponse)
      → run.1 ≡ ok r
      → ((id : String) → reserved_at run.0.remote id ≡ raised (amount id items) (base id))
      → Booked base items run

module _ (clock : ℤ) (up_inventory : Bool) (pays : String → ℤ → String → PaymentReply)
    (base : String → Option ℤ) (nonneg : Base base) where
  abbrev R : Remote Inventory.Service
  R = inventory_remote clock up_inventory pays

  abbrev AllHeld : Order → List OrderItem → Type 0
  AllHeld o held = All (Held base o.order_id) held

  fail_order-Booked :
      (later : ℤ) (del_up : Bool) (key : String) (s : Service Inventory.Service) (o : Order)
      (held : List OrderItem) (reason : String)
      → AllHeld o held
      → Holds base held s.remote
      → Booked base o.items (fail_order R later del_up key s o held reason)
  fail_order-Booked later del_up key s o held reason v h = untouched _ refl (
      release_reserved_items-Holds clock up_inventory pays base o.order_id s.remote held nonneg v h)

  settle-Booked :
      (later : ℤ) (up : Answers) (key : String) (s : Service Inventory.Service)
      (o stored_as : Order) (reply : PaymentReply) (problem : Option String)
      → lookup o.order_id s.repo ≡ some stored_as
      → AllHeld o o.items
      → Holds base o.items s.remote
      → Booked base o.items (settle R later up key s o o.items reply problem)
  unfolding settle persisted
  settle-Booked later up key s o held reply (some reason) there v h =
      fail_order-Booked later up.del key s o o.items reason v h
  settle-Booked later up key s o held reply none there v h =
      rw (update_stored s.repo (confirmed_order later reply o) held there, persisted)
        (taken _ refl h)

  pay-Booked :
      (later : ℤ) (up : Answers) (key : String) (s : Service Inventory.Service)
      (o stored_as : Order)
      → lookup o.order_id s.repo ≡ some stored_as
      → AllHeld o o.items
      → Holds base o.items s.remote
      → Booked base o.items (pay R later up key s o o.items)
  unfolding pay inventory_remote
  pay-Booked later up key s o stored_as there v h =
      settle-Booked later up key s o stored_as (pays o.order_id o.total_amount o.currency) _ there v
        h

  reserved_then-Booked :
      (later : ℤ) (up : Answers) (key : String) (s : Service Inventory.Service)
      (o stored_as : Order) (held : List OrderItem) (stopped : Option String)
      → lookup o.order_id s.repo ≡ some stored_as
      → AllHeld o held
      → Holds base held s.remote
      → (stopped ≡ none → held ≡ o.items)
      → Booked base o.items (reserved_then R later up key s o held stopped)
  unfolding reserved_then
  reserved_then-Booked later up key s o stored_as held (some reason) there v h all =
      fail_order-Booked later up.del key s o held reason v h
  reserved_then-Booked later up key s o stored_as held none there v h all =
      let e = all refl in
      rw e (
        pay-Booked later up key s o stored_as there (subst (AllHeld o) e v) (λ id. rw (← e) (h id)))

  stored_new-Booked :
      (later : ℤ) (up : Answers) (key : String) (s : Service Inventory.Service) (o : Order)
      → Holds base [] s.remote
      → Booked base o.items (stored R later up key s o (insert o.order_id o s.repo, none))
  unfolding stored
  stored_new-Booked later up key s o h =
      let v =
        reserve_items-Stocked clock up_inventory pays base o.order_id s.remote [] o.items tt h in
      reserved_then-Booked later up key _ o o _ _ (lookup-insert_self o.order_id o s.repo) v.each
        v.holds v.all

  stored_held-Booked :
      (later : ℤ) (up : Answers) (key : String) (s : Service Inventory.Service) (o : Order)
      (e : AppError)
      → ((id : String) → reserved_at s.remote id ≡ base id)
      → Booked base o.items (stored R later up key s o (s.repo, some e))
  unfolding stored
  stored_held-Booked later up key s o e h = untouched e refl h

  stored-Booked :
      (later : ℤ) (up : Answers) (key : String) (s : Service Inventory.Service) (o : Order)
      → ((id : String) → reserved_at s.remote id ≡ base id)
      → Booked base o.items (stored R later up key s o (create s.repo o))
  unfolding amount
  stored-Booked later up key s o h = elim (Option-cases (lookup o.order_id s.repo)) [
    | inr (held, e) ↦
        let refusal = create_held s.repo o held e in
        rw refusal.1 (stored_held-Booked later up key s o refusal.0 h)
    | inl e ↦
        rw (create_new s.repo o e)
          (stored_new-Booked later up key s o (λ id. h id ∙ unraised (base id)))
  ]

-- The levels of the stock are not below zero.
stock-Base : (s : Inventory.Service) → IsStocked s.repo → Base (reserved_at s)
stock-Base s v id z e = let at = present z (lookup id s.repo) e in rw (← at.2) (v id at.0 at.1).0

-- What an order comes to on the stock: a replay and an error leave it as it was, and a confirmed order
-- takes what it names.
pub data OrderBooked (before : Service Inventory.Service) (up : Answers) (q : CreateOrderRequest)
    (run : BookRun) : Type 0 where
  replayed :
      (r : CreateOrderResponse)
      → (claim up q.idempotency_key before.redis).1 ≡ replay (ok r)
      → run.1 ≡ ok r
      → run.0.remote ≡ before.remote
      → OrderBooked before up q run
  booked : Booked (reserved_at before.remote) q.items run → OrderBooked before up q run

module _ (clock : ℤ) (up_inventory : Bool) (pays : String → ℤ → String → PaymentReply) where
  admitted-Booked :
      (now later : ℤ) (up : Answers) (s : Service Inventory.Service) (q : CreateOrderRequest)
      (c : Map Entry × Claim)
      → IsStocked s.remote.repo
      → claim up q.idempotency_key s.redis ≡ c
      → OrderBooked s up q (admitted (inventory_remote clock up_inventory pays) now later up s q c)
  unfolding admitted
  admitted-Booked now later up s q (redis, replay (ok r)) v e =
      replayed r (ap (λ c. c.1) e) refl refl
  admitted-Booked now later up s q (redis, replay (err problem)) v e =
      booked (untouched problem refl (λ id. refl))
  admitted-Booked now later up s q (redis, fresh) v e = booked (
      stored-Booked clock up_inventory pays (reserved_at s.remote) (stock-Base s.remote v) later up
        q.idempotency_key (record s { redis = redis }) (pending_order now q) (λ id. refl))

  checked-Booked :
      (now later : ℤ) (up : Answers) (s : Service Inventory.Service) (q : CreateOrderRequest)
      (problem : Option AppError)
      → IsStocked s.remote.repo
      → OrderBooked s up q
          (checked (inventory_remote clock up_inventory pays) now later up s q problem)
  unfolding checked
  checked-Booked now later up s q (some e) v = booked (untouched e refl (λ id. refl))
  checked-Booked now later up s q none v = admitted-Booked now later up s q _ v refl

  -- Run on the inventory service with no other client in between, from stock that is not oversold: an
  -- order that fails, at whatever call, leaves what is reserved of every item as it was; one that is
  -- confirmed adds what it names of each item; one that is replayed leaves the inventory alone.
  pub create_order-OrderBooked :
      (now later : ℤ) (up : Answers) (s : Service Inventory.Service) (q : CreateOrderRequest)
      → IsStocked s.remote.repo
      → OrderBooked s up q
          (create_order (inventory_remote clock up_inventory pays) now later up s q)
  unfolding create_order
  create_order-OrderBooked now later up s q v = checked-Booked now later up s q _ v
