-- ===== src/Services/Orders/Saga/Outcomes.antt =====
-- What an order comes to: it is rejected before any call, or confirmed, or failed and compensated.
use summer_project.Prelude.{
  ◌≡◌, refl, sym, ◌∙◌, ap, ◌⊎◌, inl, inr, Bool, Option, none, some, List, [], ◌∷◌, ◌++◌, map,
  String, Option-cases,
}
use summer_project.Prelude.Int.{ℤ}
use summer_project.Prelude.Text.{sprint}
use summer_project.Prelude.Maps.{Map, lookup, insert, lookup-insert_self}
use summer_project.Shared.AppErrors.{AppError, Result, ok, err, with_message, order_failed}
use summer_project.Services.Orders.{
  OrderItem, Order, CreateOrderRequest, CreateOrderResponse, create, create_absent, update,
  update_present, Repository,
}
use summer_project.Services.Orders.Saga.{
  Reserved, fail_order, persisted, settle, pay, reserved_then, stored, admitted, checked,
  create_order,
}
use summer_project.Services.Orders.Remote.{
  Reply, PaymentReply, Remote, Service, Answers, Entry, Claim, fresh, replay, reserve_failure,
  payment_failure, pending_order, confirmation, failed_order, confirmed_order,
}
use summer_project.Services.Orders.Saga.Calls.{
  Event, asked, released, paid, recorded, accepted, Ending, complete, refused, Reservations,
  reserve_items-Reservations, release_reserved_items_calls,
}
use mathlib.Core.List.{append_assoc, append-nil}

abbrev pub Run : Type 0 → Type 0
Run S = Service (S × List Event) × Result CreateOrderResponse

abbrev trace : {S : Type 0} → Run S → List Event
trace run = run.0.remote.1

-- Every item was reserved, then the total paid; nothing is released.
pub record Confirmed {S : Type 0} (later : ℤ) (o : Order) (run : Run S) : Type 0 where
  pub reply : PaymentReply
  pub accepted_payment : payment_failure reply ≡ none
  pub calls : trace run ≡ map accepted o.items ++ paid o.total_amount o.currency reply ∷ []
  pub stored_as : lookup o.order_id run.0.repo ≡ some (confirmed_order later reply o)
  pub answer : run.1 ≡ ok (confirmation (confirmed_order later reply o))

-- The call at which an order failed, with the items that were then left to reserve.
pub data Cause (o : Order) : List OrderItem → Event → String → Type 0 where
  item_refused :
      (i : OrderItem) (left : List OrderItem) (r : Reply) (reason : String)
      → reserve_failure i r ≡ some reason
      → Cause o (i ∷ left) (asked i r) reason
  payment_refused :
      (reply : PaymentReply) (reason : String)
      → payment_failure reply ≡ some reason
      → Cause o [] (paid o.total_amount o.currency reply) reason

-- The items before the cause were reserved, and after it each of them is released, once.
pub record Failed {S : Type 0} (later : ℤ) (o : Order) (run : Run S) : Type 0 where
  pub taken : List OrderItem
  pub left : List OrderItem
  pub at : Event
  pub reason : String
  pub split : o.items ≡ taken ++ left
  pub cause : Cause o left at reason
  pub calls : trace run ≡ map accepted taken ++ at ∷ map released taken
  pub stored_as : lookup o.order_id run.0.repo ≡ some (failed_order later reason o)
  pub answer :
      run.1
      ≡ err (with_message order_failed (sprint ("order " ∷ o.order_id ∷ " failed: " ∷ reason ∷ [])))

pub update_stored :
    (r : Repository) (o held : Order)
    → lookup o.order_id r ≡ some held
    → update r o ≡ (insert o.order_id o r, none)
unfolding update
update_stored r o held e = rw (e, update_present) refl

pub create_new :
    (r : Repository) (o : Order)
    → lookup o.order_id r ≡ none
    → create r o ≡ (insert o.order_id o r, none)
unfolding create
create_new r o e = rw (e, create_absent) refl

pub create_held :
    (r : Repository) (o held : Order)
    → lookup o.order_id r ≡ some held
    → (e : AppError) × (create r o ≡ (r, some e))
unfolding create
create_held r o held e = rw (e, create_absent) (_, refl)

module _ {S : Type 0} (R : Remote S) where
  fail_order-Failed :
      (later : ℤ) (del_up : Bool) (key : String) (s : Service (S × List Event)) (o held : Order)
      (taken left : List OrderItem) (at : Event) (reason : String)
      → lookup o.order_id s.repo ≡ some held
      → o.items ≡ taken ++ left
      → Cause o left at reason
      → s.remote.1 ≡ map accepted taken ++ at ∷ []
      → Failed later o (fail_order (recorded R) later del_up key s o taken reason)
  fail_order-Failed later del_up key s o held taken left at reason there split cause calls =
      record {
        taken = taken;
        left = left;
        at = at;
        reason = reason;
        split = split;
        cause = cause;
        calls =
            release_reserved_items_calls R o.order_id s.remote.0 s.remote.1 taken
            ∙ ap (λ t. t ++ map released taken) calls
            ∙ append_assoc (map accepted taken) (at ∷ []) (map released taken);
        stored_as =
            rw (update_stored s.repo (failed_order later reason o) held there)
              (lookup-insert_self o.order_id _ s.repo);
        answer = refl;
      }

  settle-Outcome :
      (later : ℤ) (up : Answers) (key : String) (s : Service (S × List Event)) (o held : Order)
      (reply : PaymentReply) (problem : Option String)
      → payment_failure reply ≡ problem
      → lookup o.order_id s.repo ≡ some held
      → s.remote.1 ≡ map accepted o.items ++ paid o.total_amount o.currency reply ∷ []
      → let run = settle (recorded R) later up key s o o.items reply problem in
        Confirmed later o run ⊎ Failed later o run
  unfolding settle persisted
  settle-Outcome later up key s o held reply (some reason) e there calls = inr (
      fail_order-Failed later up.del key s o held o.items [] _ reason there
        (sym (append-nil o.items)) (payment_refused reply reason e) calls)
  settle-Outcome later up key s o held reply none e there calls =
      rw (update_stored s.repo (confirmed_order later reply o) held there, persisted)
        (inl (record {
          reply = reply;
          accepted_payment = e;
          calls = calls;
          stored_as =
              rw (update_stored s.repo (confirmed_order later reply o) held there)
                (lookup-insert_self o.order_id _ s.repo);
          answer = refl;
        }))

  pay-Outcome :
      (later : ℤ) (up : Answers) (key : String) (s : Service (S × List Event)) (o held : Order)
      → lookup o.order_id s.repo ≡ some held
      → s.remote.1 ≡ map accepted o.items
      → let run = pay (recorded R) later up key s o o.items in
        Confirmed later o run ⊎ Failed later o run
  unfolding pay recorded
  pay-Outcome later up key s o held there calls =
      let result = R.pay_call s.remote.0 o.order_id o.total_amount o.currency in
      settle-Outcome later up key _ o held result.1 (payment_failure result.1) refl there
        (ap (λ t. t ++ paid o.total_amount o.currency result.1 ∷ []) calls)

  reserved_then-Outcome :
      (later : ℤ) (up : Answers) (key : String) (s : Service (S × List Event)) (o held : Order)
      (taken left : List OrderItem) (last : List Event) (stopped : Option String)
      → lookup o.order_id s.repo ≡ some held
      → o.items ≡ taken ++ left
      → s.remote.1 ≡ map accepted taken ++ last
      → Ending left last stopped
      → let run = reserved_then (recorded R) later up key s o taken stopped in
        Confirmed later o run ⊎ Failed later o run
  unfolding reserved_then
  reserved_then-Outcome later up key s o held taken _ _ _ there split calls
        (refused i left r reason e) =
      inr (
        fail_order-Failed later up.del key s o held taken (i ∷ left) _ reason there split
          (item_refused i left r reason e) calls)
  reserved_then-Outcome later up key s o held taken _ _ _ there split calls complete =
      rw (sym (append-nil taken) ∙ sym split) (
        pay-Outcome later up key s o held there (
          calls
          ∙ append-nil (map accepted taken)
          ∙ ap (map accepted) (sym (append-nil taken) ∙ sym split)))

  got-Outcome :
      (later : ℤ) (up : Answers) (key : String) (r : Repository) (redis : Map Entry)
      (o held : Order) (t : List Event) (got : Reserved (recorded R))
      → lookup o.order_id r ≡ some held
      → t ≡ []
      → Reservations R t [] o.items got
      → let run =
          reserved_then
            (recorded R)
            later
            up
            key
            (record { remote = got.after; repo = r; redis = redis })
            o
            got.held
            got.stopped in
        Confirmed later o run ⊎ Failed later o run
  got-Outcome later up key r redis o held t got there quiet v = rw v.holds (
      reserved_then-Outcome later up key _ o held v.taken v.left v.last got.stopped there v.split
        (v.calls ∙ ap (λ u. u ++ (map accepted v.taken ++ v.last)) quiet) v.ending)

  stored_new-Outcome :
      (later : ℤ) (up : Answers) (key : String) (s : Service (S × List Event)) (o : Order)
      → s.remote.1 ≡ []
      → let run = stored (recorded R) later up key s o (insert o.order_id o s.repo, none) in
        Confirmed later o run ⊎ Failed later o run
  unfolding stored
  stored_new-Outcome later up key s o quiet =
      got-Outcome later up key (insert o.order_id o s.repo) s.redis o o s.remote.1 _
        (lookup-insert_self o.order_id o s.repo) quiet
        (reserve_items-Reservations R o.order_id s.remote.0 s.remote.1 [] o.items)

  stored_held :
      (later : ℤ) (up : Answers) (key : String) (s : Service (S × List Event)) (o : Order)
      (e : AppError)
      → s.remote.1 ≡ []
      → let run = stored (recorded R) later up key s o (s.repo, some e) in
        (trace run ≡ []) × (run.0.repo ≡ s.repo)
  unfolding stored
  stored_held later up key s o e quiet = (quiet, refl)

  stored-Outcome :
      (later : ℤ) (up : Answers) (key : String) (s : Service (S × List Event)) (o : Order)
      → s.remote.1 ≡ []
      → let run = stored (recorded R) later up key s o (create s.repo o) in
        ((trace run ≡ []) × (run.0.repo ≡ s.repo)) ⊎ (Confirmed later o run ⊎ Failed later o run)
  stored-Outcome later up key s o quiet = elim (Option-cases (lookup o.order_id s.repo)) [
    | inr (held, e) ↦
        let refusal = create_held s.repo o held e in
        rw refusal.1 (inl (stored_held later up key s o refusal.0 quiet))
    | inl e ↦ rw (create_new s.repo o e) (inr (stored_new-Outcome later up key s o quiet))
  ]

  admitted-Outcome :
      (now later : ℤ) (up : Answers) (s : Service (S × List Event)) (q : CreateOrderRequest)
      (c : Map Entry × Claim)
      → s.remote.1 ≡ []
      → let run = admitted (recorded R) now later up s q c in
        let o = pending_order now q in
        ((trace run ≡ []) × (run.0.repo ≡ s.repo)) ⊎ (Confirmed later o run ⊎ Failed later o run)
  unfolding admitted
  admitted-Outcome now later up s q (redis, replay r) quiet = inl (quiet, refl)
  admitted-Outcome now later up s q (redis, fresh) quiet =
      stored-Outcome later up q.idempotency_key (record s { redis = redis }) (pending_order now q)
        quiet

  checked-Outcome :
      (now later : ℤ) (up : Answers) (s : Service (S × List Event)) (q : CreateOrderRequest)
      (problem : Option AppError)
      → s.remote.1 ≡ []
      → let run = checked (recorded R) now later up s q problem in
        let o = pending_order now q in
        ((trace run ≡ []) × (run.0.repo ≡ s.repo)) ⊎ (Confirmed later o run ⊎ Failed later o run)
  unfolding checked
  checked-Outcome now later up s q (some e) quiet = inl (quiet, refl)
  checked-Outcome now later up s q none quiet = admitted-Outcome now later up s q _ quiet

  -- Whatever the remote services answer, a run of the saga either makes no call and leaves the orders
  -- alone, or reserves every item and pays the total, and stores the order as confirmed, or stops at
  -- a first refused call, releases each item reserved till then, once, and stores the order as failed.
  pub create_order-Outcome :
      (now later : ℤ) (up : Answers) (s : Service (S × List Event)) (q : CreateOrderRequest)
      → s.remote.1 ≡ []
      → let run = create_order (recorded R) now later up s q in
        let o = pending_order now q in
        ((trace run ≡ []) × (run.0.repo ≡ s.repo)) ⊎ (Confirmed later o run ⊎ Failed later o run)
  unfolding create_order
  create_order-Outcome now later up s q quiet = checked-Outcome now later up s q _ quiet
