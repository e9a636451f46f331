-- ===== src/Shared/AppErrors.antt =====
-- internal/shared/apperrors/errors.go: the domain errors of the services.
use summer_project.Prelude.{ℕ, Bool, Option, none, some, [], ◌∷◌, String}
use summer_project.Prelude.Text.{str_eq, sprint}

pub data ErrorCategory : Type 0 where
  not_found conflict validation unavailable declined internal : ErrorCategory

-- A cause is represented by its text.
pub record AppError : Type 0 where
  pub code : String
  pub message : String
  pub http_status : ℕ
  pub category : ErrorCategory
  pub cause : Option String

pub error_text : AppError → String
error_text e = elim e.cause [
  | some c ↦ sprint ("[" ∷ e.code ∷ "] " ∷ e.message ∷ ": " ∷ c ∷ [])
  | none ↦ sprint ("[" ∷ e.code ∷ "] " ∷ e.message ∷ [])
]

-- `Is`, against another *AppError.
pub is_error : AppError → AppError → Bool
is_error e target = str_eq e.code target.code

abbrev pub wrap : AppError → String → AppError
wrap e cause = record e { cause = some cause }

abbrev pub with_message : AppError → String → AppError
with_message e message = record e { message = message }

abbrev app_error : String → String → ℕ → ErrorCategory → AppError
app_error code message status category = record {
  code = code;
  message = message;
  http_status = status;
  category = category;
  cause = none;
}

abbrev pub order_not_found : AppError
order_not_found = app_error "ORDER_NOT_FOUND" "order not found" 404 not_found

abbrev pub duplicate_order : AppError
duplicate_order =
    app_error "DUPLICATE_ORDER" "an order with this idempotency key already exists" 409 conflict

abbrev pub order_validation : AppError
order_validation =
    app_error "ORDER_VALIDATION_FAILED" "order request validation failed" 400 validation

abbrev pub order_failed : AppError
order_failed = app_error "ORDER_FAILED" "order could not be completed" 422 declined

abbrev pub inventory_item_not_found : AppError
inventory_item_not_found =
    app_error "INVENTORY_ITEM_NOT_FOUND" "inventory item not found" 404 not_found

abbrev pub inventory_unavailable : AppError
inventory_unavailable =
    app_error "INVENTORY_UNAVAILABLE" "insufficient stock to fulfil reservation" 409 declined

abbrev pub inventory_validation : AppError
inventory_validation =
    app_error "INVENTORY_VALIDATION_FAILED" "inventory request validation failed" 400 validation

abbrev pub payment_not_found : AppError
payment_not_found = app_error "PAYMENT_NOT_FOUND" "payment record not found" 404 not_found

abbrev pub payment_already_refunded : AppError
payment_already_refunded =
    app_error "PAYMENT_ALREADY_REFUNDED" "payment has already been refunded" 409 conflict

abbrev pub payment_not_refundable : AppError
payment_not_refundable =
    app_error "PAYMENT_NOT_REFUNDABLE" "only succeeded payments can be refunded" 409 conflict

abbrev pub payment_validation : AppError
payment_validation =
    app_error "PAYMENT_VALIDATION_FAILED" "payment request validation failed" 400 validation

-- A result, or a domain error.
pub data Result {ℓ} (A : Type ℓ) : Type ℓ where
  ok : A → Result A
  err : AppError → Result A
