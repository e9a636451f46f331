-- ===== src/Services/Payments/Once.antt =====
-- A payment is refunded once at most, whatever calls come to the service one after the other.
use summer_project.Prelude.{
  ℕ, ◌+◌, ◌≤◌, Bool, false, if◌then◌else◌, ◌≡◌, refl, ap, inl, inr, Option, none, some, List, [],
  ◌∷◌, String, arith, Bool-cases, All,
}
use summer_project.Prelude.Int.{ℤ}
use summer_project.Prelude.Text.{str_eq, eq_iff}
use summer_project.Prelude.Maps.{lookup-insert}
use summer_project.Shared.AppErrors.{AppError, Result, ok, err}
use summer_project.Services.Payments.{
  PaymentStatus, refunded, Payment, get_by_id, Service, ProcessRequest, RefundRequest, new_id,
  process, processed, refund, get_payment, read_cached, read_repo, validate_process, payment_of,
  simulate_gateway,
}
use summer_project.Services.Payments.Refunds.{status_of, is_ok, refund_effect}

-- A call of the service, with what it draws and whether Redis answers.
pub data Call : Type 0 where
  processes : ℤ → Bool → Bool → ℕ → ProcessRequest → Call
  refunds : ℤ → Bool → RefundRequest → Call
  gets : Bool → Bool → String → Call

unfoldable pub step : Service → Call → Service
step s (processes now up declines pick q) = (process now up declines pick s q).0
step s (refunds now up q) = (refund now up s q).0
step s (gets get_up set_up id) = (get_payment get_up set_up s id).0

-- 1 if the call is a refund of the payment and is granted.
unfoldable pub granted : String → Service → Call → ℕ
granted id s (refunds now up q) =
    if str_eq q.payment_id id then (if is_ok (refund now up s q).1 then 1 else 0) else 0
granted id s (processes now up declines pick q) = 0
granted id s (gets get_up set_up other) = 0

unfoldable pub count_granted : String → Service → List Call → ℕ
unfolding granted step
count_granted id s [] = 0
count_granted id s (c ∷ cs) = granted id s c + count_granted id (step s c) cs

-- No payment is made under the id.
abbrev pub Keeps : String → Call → Type 0
Keeps id (processes now up declines pick q) = str_eq (new_id now) id ≡ false
Keeps id (refunds now up q) = Unit
Keeps id (gets get_up set_up other) = Unit

abbrev spent : Option PaymentStatus → ℕ
spent (some refunded) = 1
spent _ = 0

spent-refund :
    (id : String) (now : ℤ) (up : Bool) (s : Service) (q : RefundRequest)
    → spent (status_of (refund now up s q).0 id)
      ≡ granted id s (refunds now up q) + spent (status_of s id)
unfolding granted
spent-refund id now up s q = elim (refund_effect now up s q) [
  | inl (fit, accepted, after) ↦
      rw (after id, accepted)
        (ground (arith, fit.stored, fit.has_succeeded, eq_iff q.payment_id id))
  | inr (unfit, refused, same) ↦ rw (same, refused) (ground arith)
]

processed_status :
    (id : String) (now : ℤ) (up : Bool) (s : Service) (p : Payment) (problem : Option AppError)
    → str_eq p.payment_id id ≡ false
    → status_of (processed now up s p problem).0 id ≡ status_of s id
unfolding processed
processed_status id now up s p none differ = rw (lookup-insert, differ) refl
processed_status id now up s p (some e) differ = refl

read_repo_repo :
    (up : Bool) (s : Service) (id : String) (a : Result Payment)
    → (read_repo up s id a).0.repo ≡ s.repo
unfolding read_repo
read_repo_repo up s id (ok p) = refl
read_repo_repo up s id (err e) = refl

read_cached_repo :
    (up : Bool) (s : Service) (id : String) (a : Option Payment)
    → (read_cached up s id a).0.repo ≡ s.repo
unfolding read_cached
read_cached_repo up s id (some p) = refl
read_cached_repo up s id none = read_repo_repo up s id (get_by_id s.repo id)

get_payment_repo :
    (get_up set_up : Bool) (s : Service) (id : String)
    → (get_payment get_up set_up s id).0.repo ≡ s.repo
unfolding get_payment
get_payment_repo get_up set_up s id = elim (Bool-cases (str_eq id "")) [
  | inl empty ↦ rw empty refl
  | inr named ↦ rw named (read_cached_repo set_up s id _)
]

spent-step :
    (id : String) (s : Service) (c : Call)
    → Keeps id c
    → spent (status_of (step s c) id) ≡ granted id s c + spent (status_of s id)
unfolding step granted process
spent-step id s (processes now up declines pick q) h = omega (
  arith,
  ap spent (
      processed_status id now up s (payment_of now q (simulate_gateway declines pick))
        (validate_process q) h),
)
spent-step id s (refunds now up q) h = spent-refund id now up s q
spent-step id s (gets get_up set_up other) h =
    rw (get_payment_repo get_up set_up s other) (omega arith)

count_spent :
    (id : String) (s : Service) (cs : List Call)
    → All (Keeps id) cs
    → count_granted id s cs + spent (status_of s id) ≤ 1
unfolding count_granted
count_spent id s [] h = ground arith
count_spent id s (c ∷ cs) h = omega (arith, spent-step id s c h.0, count_spent id (step s c) cs h.1)

-- Of any run of calls, each of which ends before the next begins, and in which no payment is made under
-- the id, one refund of it is granted at most, and none if it was refunded before.
pub count_granted_le :
    (id : String) (s : Service) (cs : List Call)
    → All (Keeps id) cs
    → (count_granted id s cs ≤ 1) × (status_of s id ≡ some refunded → count_granted id s cs ≡ 0)
count_granted_le id s cs h = ground (arith, count_spent id s cs h)
