-- ===== src/Services/Payments.antt =====
-- services/payment-service: the models, the in-memory repository and the service over it. The service
-- keeps its clock in Unix nanoseconds; what the gateway draws at random and whether Redis answers are
-- arguments. Metrics, logs and spans are left out. No other holder of a stored payment changes it.
pub mod Refunds
pub mod Once
mod Examples
use summer_project.Prelude.{
  ℕ, zero, suc, Bool, true, false, if◌then◌else◌, Option, none, some, List, [], ◌∷◌, String,
}
use summer_project.Prelude.Int.{ℤ, pos, ltb_ℤ, leb_ℤ}
use summer_project.Prelude.Text.{str_eq, sprint, show_ℤ}
use summer_project.Prelude.Maps.{Map, lookup, insert, delete}
use summer_project.Shared.AppErrors.{
  AppError, Result, ok, err, with_message, payment_not_found, payment_validation,
  payment_already_refunded, payment_not_refundable,
}

pub data PaymentStatus : Type 0 where
  pending succeeded failed refunded : PaymentStatus

abbrev status_text : PaymentStatus → String
status_text pending = "PENDING"
status_text succeeded = "SUCCEEDED"
status_text failed = "FAILED"
status_text refunded = "REFUNDED"

pub record Payment : Type 0 where
  pub payment_id : String
  pub order_id : String
  pub amount : ℤ
  pub currency : String
  pub status : PaymentStatus
  pub failure_reason : String
  pub created_at : ℤ
  pub updated_at : ℤ

abbrev pub Repository : Type 0
Repository = Map Payment

-- `Create` stores whatever it is given, over what is there.
abbrev pub create : Repository → Payment → Repository
create r p = insert p.payment_id p r

abbrev missing : String → String → AppError
missing text id = with_message payment_not_found (sprint (text ∷ id ∷ []))

found : String → Option Payment → Result Payment
found id none = err (missing "payment not found: " id)
found id (some p) = ok p

pub get_by_id : Repository → String → Result Payment
unfolding found
get_by_id r id = found id (lookup id r)

-- The later of the newest payment so far and one more of the order.
newer : Payment → Option Payment → Option Payment
newer p none = some p
newer p (some latest) = if ltb_ℤ latest.created_at p.created_at then some p else some latest

latest_of : String → Option Payment → Repository → Option Payment
unfolding newer
latest_of order_id latest [] = latest
latest_of order_id latest ((id, p) ∷ rest) =
    latest_of order_id (if str_eq p.order_id order_id then newer p latest else latest) rest

found_for : String → Option Payment → Result Payment
found_for id none = err (missing "no payment found for order: " id)
found_for id (some p) = ok p

-- Go visits a map in any order; the list is one of them.
pub get_by_order_id : Repository → String → Result Payment
unfolding latest_of found_for
get_by_order_id r order_id = found_for order_id (latest_of order_id none r)

update_found :
    ℤ → Repository → String → PaymentStatus → String → Option Payment → Repository × Option AppError
update_found now r id status reason none = (r, some (missing "payment not found for update: " id))
update_found now r id status reason (some p) =
    (insert id (record p { status = status; failure_reason = reason; updated_at = now }) r, none)

pub update_status : ℤ → Repository → String → PaymentStatus → String → Repository × Option AppError
unfolding update_found
update_status now r id status reason = update_found now r id status reason (lookup id r)

-- The state of the service: its repository, and what Redis holds for it.
pub record Service : Type 0 where
  pub repo : Repository
  pub cache : Map Payment

pub record ProcessRequest : Type 0 where
  pub order_id : String
  pub amount : ℤ
  pub currency : String

pub record ProcessResponse : Type 0 where
  pub payment_id : String
  pub order_id : String
  pub status : PaymentStatus
  pub amount : ℤ
  pub currency : String
  pub failure_reason : String
  pub processed_at : ℤ

pub record RefundRequest : Type 0 where
  pub payment_id : String
  pub order_id : String

pub record RefundResponse : Type 0 where
  pub payment_id : String
  pub order_id : String
  pub status : PaymentStatus
  pub refunded_at : ℤ

-- What is drawn: whether below the failure rate, and which of the four reasons.
pub simulate_gateway : Bool → ℕ → PaymentStatus × String
simulate_gateway false pick = (succeeded, "")
simulate_gateway true zero = (failed, "insufficient_funds")
simulate_gateway true (suc zero) = (failed, "card_declined")
simulate_gateway true (suc (suc zero)) = (failed, "gateway_timeout")
simulate_gateway true (suc (suc (suc pick))) = (failed, "fraud_detected")

abbrev pub cache_key : String → String
cache_key id = sprint ("cache:payment:" ∷ id ∷ [])

abbrev pub new_id : ℤ → String
new_id now = sprint ("pay_" ∷ show_ℤ now ∷ [])

abbrev pub validate_process : ProcessRequest → Option AppError
validate_process q =
    if str_eq q.order_id ""
    then some (with_message payment_validation "order_id is required")
    else if leb_ℤ q.amount (pos 0)
    then some (
        with_message payment_validation
          (sprint ("amount must be positive, got " ∷ show_ℤ q.amount ∷ [])))
    else if str_eq q.currency ""
    then some (with_message payment_validation "currency is required")
    else none

abbrev pub payment_of : ℤ → ProcessRequest → PaymentStatus × String → Payment
payment_of now q (status, reason) = record {
  payment_id = new_id now;
  order_id = q.order_id;
  amount = q.amount;
  currency = q.currency;
  status = status;
  failure_reason = reason;
  created_at = now;
  updated_at = now;
}

abbrev response_of : ℤ → Payment → ProcessResponse
response_of now p = record {
  payment_id = p.payment_id;
  order_id = p.order_id;
  status = p.status;
  amount = p.amount;
  currency = p.currency;
  failure_reason = p.failure_reason;
  processed_at = now;
}

abbrev write_back : Bool → String → Payment → Map Payment → Map Payment
write_back up id p cache = if up then insert (cache_key id) p cache else cache

processed : ℤ → Bool → Service → Payment → Option AppError → Service × Result ProcessResponse
processed now up s p (some e) = (s, err e)
processed now up s p none = (
  record { repo = create s.repo p; cache = write_back up p.payment_id p s.cache },
  ok (response_of now p),
)

pub process : ℤ → Bool → Bool → ℕ → Service → ProcessRequest → Service × Result ProcessResponse
unfolding processed simulate_gateway
process now up declines pick s q =
    processed now up s (payment_of now q (simulate_gateway declines pick)) (validate_process q)

abbrev validate_refund : RefundRequest → Option AppError
validate_refund q =
    if str_eq q.payment_id ""
    then some (with_message payment_validation "payment_id is required")
    else if str_eq q.order_id ""
    then some (with_message payment_validation "order_id is required")
    else none

abbrev not_refundable : PaymentStatus → Option AppError
not_refundable succeeded = none
not_refundable refunded = some payment_already_refunded
not_refundable s = some (
    with_message payment_not_refundable
      (sprint ("cannot refund payment in " ∷ status_text s ∷ " state" ∷ [])))

abbrev refund_problem : RefundRequest → Payment → Option AppError
refund_problem q p =
    if str_eq p.order_id q.order_id
    then not_refundable p.status
    else some (with_message payment_validation "payment does not belong to this order")

updated :
    ℤ
    → Bool
    → Service
    → RefundRequest
    → Repository × Option AppError
    → Service × Result RefundResponse
updated now up s q (r, some e) = (record s { repo = r }, err e)
updated now up s q (r, none) = (
  record { repo = r; cache = if up then delete (cache_key q.payment_id) s.cache else s.cache },
  ok (record {
    payment_id = q.payment_id;
    order_id = q.order_id;
    status = refunded;
    refunded_at = now;
  }),
)

settled : ℤ → Bool → Service → RefundRequest → Option AppError → Service × Result RefundResponse
unfolding updated
settled now up s q (some e) = (s, err e)
settled now up s q none = updated now up s q (update_status now s.repo q.payment_id refunded "")

-- What follows GetByID: the tests on what it answered, and UpdateStatus on what is stored by then.
pub refund_of :
    ℤ → Bool → Service → RefundRequest → Result Payment → Service × Result RefundResponse
unfolding settled
refund_of now up s q (err e) = (s, err e)
refund_of now up s q (ok p) = settled now up s q (refund_problem q p)

refund_valid :
    ℤ → Bool → Service → RefundRequest → Option AppError → Service × Result RefundResponse
unfolding refund_of
refund_valid now up s q (some e) = (s, err e)
refund_valid now up s q none = refund_of now up s q (get_by_id s.repo q.payment_id)

-- The call as it runs when no other call of the service comes between: the source reads the payment
-- (GetByID) under one hold of the repository's lock and marks it refunded (UpdateStatus) under another,
-- with the tests of `refund_problem` between the two.
pub refund : ℤ → Bool → Service → RefundRequest → Service × Result RefundResponse
unfolding refund_valid
refund now up s q = refund_valid now up s q (validate_refund q)

read_repo : Bool → Service → String → Result Payment → Service × Result Payment
read_repo up s id (err e) = (s, err e)
read_repo up s id (ok p) = (record s { cache = write_back up id p s.cache }, ok p)

read_cached : Bool → Service → String → Option Payment → Service × Result Payment
unfolding read_repo
read_cached up s id (some p) = (s, ok p)
read_cached up s id none = read_repo up s id (get_by_id s.repo id)

-- `get_up` and `set_up` tell whether Redis answers the read and the write.
pub get_payment : Bool → Bool → Service → String → Service × Result Payment
unfolding read_cached
get_payment get_up set_up s id =
    if str_eq id ""
    then (s, err (with_message payment_validation "payment_id is required"))
    else read_cached set_up s id (if get_up then lookup (cache_key id) s.cache else none)
