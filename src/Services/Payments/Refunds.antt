-- ===== src/Services/Payments/Refunds.antt =====
-- Which refunds are granted, and that a payment is refunded once at most.
use summer_project.Prelude.{
  Bool, true, false, if◌then◌else◌, ◌≡◌, refl, ◌⊎◌, inl, inr, Option, none, some, String, arith,
  Bool-cases, Option-cases,
}
use summer_project.Prelude.Int.{ℤ}
use summer_project.Prelude.Text.{str_eq, eq_iff}
use summer_project.Prelude.Maps.{lookup, insert, lookup-insert}
use summer_project.Shared.AppErrors.{AppError, Result, ok, err}
use summer_project.Services.Payments.{
  PaymentStatus, pending, succeeded, failed, refunded, Payment, Repository, get_by_id, found,
  update_status, update_found, Service, RefundRequest, refund, refund_valid, refund_of,
  refund_problem, settled, updated, not_refundable,
}

abbrev pub status_in : Option Payment → Option PaymentStatus
status_in none = none
status_in (some p) = some p.status

abbrev pub status_of : Service → String → Option PaymentStatus
status_of s id = status_in (lookup id s.repo)

abbrev pub is_ok {ℓ} : {A : Type ℓ} → Result A → Bool
is_ok (ok a) = true
is_ok (err e) = false

-- What a refund takes: both ids are given, and the payment is one of the order's that succeeded.
pub record Refundable (s : Service) (q : RefundRequest) : Type 0 where
  pub payment : Payment
  pub stored : lookup q.payment_id s.repo ≡ some payment
  pub of_order : payment.order_id ≡ q.order_id
  pub has_succeeded : payment.status ≡ succeeded
  pub named : str_eq q.payment_id "" ≡ false
  pub has_order : str_eq q.order_id "" ≡ false

-- Once the request is valid and the payment is found, the rest depends on the two.
refund_stored :
    (now : ℤ) (up : Bool) (s : Service) (q : RefundRequest) (p : Payment)
    → str_eq q.payment_id "" ≡ false
    → str_eq q.order_id "" ≡ false
    → lookup q.payment_id s.repo ≡ some p
    → refund now up s q ≡ settled now up s q (refund_problem q p)
unfolding refund refund_valid get_by_id
refund_stored now up s q p named has_order e = rw (named, has_order, e, found, refund_of) refl

update_status_stored :
    (now : ℤ) (r : Repository) (id : String) (status : PaymentStatus) (reason : String)
    (p : Payment)
    → lookup id r ≡ some p
    → update_status now r id status reason ≡ (
      insert id (record p { status = status; failure_reason = reason; updated_at = now }) r,
      none,
    )
unfolding update_status
update_status_stored now r id status reason p e = rw (e, update_found) refl

settled-none :
    (now : ℤ) (up : Bool) (s : Service) (q : RefundRequest) (p : Payment)
    → lookup q.payment_id s.repo ≡ some p
    → let result = settled now up s q none in
      (is_ok result.1 ≡ true)
      × ((id : String)
          → status_of result.0 id
            ≡ (if str_eq q.payment_id id then some refunded else status_of s id))
unfolding settled updated
settled-none now up s q p e =
    let done = update_status_stored now s.repo q.payment_id refunded "" p e in
    (rw (done, updated) refl, (λ id. rw done (rw lookup-insert (ground arith))))

status_cases :
    (s : PaymentStatus)
    → (s ≡ succeeded) ⊎ ((e : AppError) × (not_refundable s ≡ some e) × (¬ (s ≡ succeeded)))
status_cases succeeded = inl refl
status_cases refunded = inr (_, refl, (λ e. cc))
status_cases pending = inr (_, refl, (λ e. cc))
status_cases failed = inr (_, refl, (λ e. cc))

problem_cases :
    (q : RefundRequest) (p : Payment)
    → ((refund_problem q p ≡ none) × (p.order_id ≡ q.order_id) × (p.status ≡ succeeded))
      ⊎ ((e : AppError) × (refund_problem q p ≡ some e)
          × (p.order_id ≡ q.order_id → ¬ (p.status ≡ succeeded)))
problem_cases q p = elim (Bool-cases (str_eq p.order_id q.order_id)) [
  | inr differ ↦ rw differ (inr (_, refl, (λ e. ground (arith, eq_iff p.order_id q.order_id))))
  | inl same ↦ rw same (elim (status_cases p.status) [
    | inl done ↦ rw done (inl (refl, (eq_iff _ _).0 same, refl))
    | inr (e, refused, other) ↦ inr (e, refused, (λ _. other))
  ])
]

refund_found_effect :
    (now : ℤ) (up : Bool) (s : Service) (q : RefundRequest) (p : Payment)
    → str_eq q.payment_id "" ≡ false
    → str_eq q.order_id "" ≡ false
    → lookup q.payment_id s.repo ≡ some p
    → let result = refund now up s q in
      (Refundable s q
        × (is_ok result.1 ≡ true)
        × ((id : String)
            → status_of result.0 id
              ≡ (if str_eq q.payment_id id then some refunded else status_of s id)))
      ⊎ ((¬ Refundable s q) × (is_ok result.1 ≡ false) × (result.0 ≡ s))
unfolding settled
refund_found_effect now up s q p named has_order e = elim (problem_cases q p) [
  | inl (none_found, of_order, has_succeeded) ↦
      rw (refund_stored now up s q p named has_order e, none_found)
        (let done = settled-none now up s q p e in
          inl (
            record {
              payment = p;
              stored = e;
              of_order = of_order;
              has_succeeded = has_succeeded;
              named = named;
              has_order = has_order;
            },
            done.0,
            done.1,
          ))
  | inr (problem, is_found, unfit) ↦
      rw (refund_stored now up s q p named has_order e, is_found, settled)
        (inr ((λ h. ground (arith, h.stored, h.of_order, h.has_succeeded, e, unfit)), refl, refl))
]

-- A refund is granted exactly for a refundable payment; then the payment is refunded and no other
-- payment has changed. Else the service is as it was.
pub refund_effect :
    (now : ℤ) (up : Bool) (s : Service) (q : RefundRequest)
    → let result = refund now up s q in
      (Refundable s q
        × (is_ok result.1 ≡ true)
        × ((id : String)
            → status_of result.0 id
              ≡ (if str_eq q.payment_id id then some refunded else status_of s id)))
      ⊎ ((¬ Refundable s q) × (is_ok result.1 ≡ false) × (result.0 ≡ s))
unfolding refund get_by_id
refund_effect now up s q = elim (Bool-cases (str_eq q.payment_id "")) [
  | inl empty ↦ rw (empty, refund_valid) (inr ((λ h. ground (arith, h.named)), refl, refl))
  | inr named ↦ elim (Bool-cases (str_eq q.order_id "")) [
    | inl empty ↦
        rw (named, empty, refund_valid) (inr ((λ h. ground (arith, h.has_order)), refl, refl))
    | inr has_order ↦ elim (Option-cases (lookup q.payment_id s.repo)) [
      | inl e ↦
          rw (named, has_order, refund_valid, get_by_id, e, found, refund_of)
            (inr ((λ h. ground (arith, h.stored)), refl, refl))
      | inr (p, e) ↦ refund_found_effect now up s q p named has_order e
    ]
  ]
]
