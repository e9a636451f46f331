-- ===== src/Services/Payments/Examples.antt =====
-- One payment that is refunded twice, and the theorems at it.
use summer_project.Prelude.{◌≤◌, ◌≡◌, refl, Bool, true, false, some, List, [], ◌∷◌}
use summer_project.Prelude.Int.{pos}
use summer_project.Prelude.Text.{show_ℤ}
use summer_project.Prelude.Maps.{lookup, insert, delete}
use summer_project.Shared.AppErrors.{Result, ok, err}
use summer_project.Services.Payments.{
  Service, RefundRequest, process, refund, refunded, succeeded, Payment, get_by_id, update_status,
  get_payment, refund_of, RefundResponse,
}
use summer_project.Services.Payments.Refunds.{status_of}
use summer_project.Services.Payments.Once.{
  Call, processes, refunds, gets, step, granted, count_granted, count_granted_le,
}

abbrev paid : Payment
paid = record {
  payment_id = "pay_7";
  order_id = "ord_1";
  amount = pos 900;
  currency = "USD";
  status = succeeded;
  failure_reason = "";
  created_at = pos 7;
  updated_at = pos 7;
}

abbrev service : Service
service = record { repo = ("pay_7", paid) ∷ []; cache = [] }

abbrev asks : RefundRequest
asks = record { payment_id = "pay_7"; order_id = "ord_1" }

-- The second refund is refused, and so is one that another order asks for.
abbrev calls : List Call
calls =
    refunds (pos 8) true (record { payment_id = "pay_7"; order_id = "ord_2" })
    ∷ refunds (pos 9) true asks
    ∷ processes (pos 10) true false 0
        (record { order_id = "ord_3"; amount = pos 5; currency = "USD" })
    ∷ gets true true "pay_7"
    ∷ refunds (pos 11) true asks
    ∷ []

count_test : count_granted "pay_7" service calls ≡ 1
unfolding count_granted granted step refund lookup insert delete get_by_id update_status process
    get_payment show_ℤ
count_test = refl

count_granted_le_example :
    (count_granted "pay_7" service calls ≤ 1)
    × (status_of service "pay_7" ≡ some refunded → count_granted "pay_7" service calls ≡ 0)
unfolding show_ℤ
count_granted_le_example = count_granted_le "pay_7" service calls (tt, (tt, (refl, (tt, (tt, tt)))))

abbrev is_granted : Service × Result RefundResponse → Bool
is_granted (s, ok r) = true
is_granted (s, err e) = false

-- Two refunds that overlap: both read the payment before one of them marks it, and both are granted.
abbrev first : Service × Result RefundResponse
first = refund_of (pos 8) true service asks (get_by_id service.repo "pay_7")

abbrev second : Service × Result RefundResponse
second = refund_of (pos 9) true first.0 asks (get_by_id service.repo "pay_7")

overlap_test : (is_granted first ≡ true) × (is_granted second ≡ true)
unfolding refund_of get_by_id update_status lookup insert delete
overlap_test = (refl, refl)
