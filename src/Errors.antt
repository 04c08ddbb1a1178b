-- ===== src/Errors.antt =====
-- app/errors.py: the domain errors with their class attributes, and the envelope `body()`.
pub mod Documented
use chekin_interview.Base.{ℕ, String, Bool, true, false, Option, none}
use chekin_interview.Json.{Json, str, obj, Fields, end, field}

-- The subclasses of `LedgerError`.
pub data ErrorType : Type 0 where
  ledger_error account_not_found insufficient_funds same_account_transfer : ErrorType
  idempotency_key_conflict lock_timeout missing_idempotency_key : ErrorType
  invalid_idempotency_key amount_out_of_range internal_error validation_failed : ErrorType

unfoldable pub status_code : ErrorType → ℕ
status_code ledger_error = 400
status_code account_not_found = 404
status_code insufficient_funds = 422
status_code same_account_transfer = 400
status_code idempotency_key_conflict = 409
status_code lock_timeout = 503
status_code missing_idempotency_key = 400
status_code invalid_idempotency_key = 400
status_code amount_out_of_range = 422
status_code internal_error = 500
status_code validation_failed = 422

unfoldable pub code : ErrorType → String
code ledger_error = "LEDGER_ERROR"
code account_not_found = "ACCOUNT_NOT_FOUND"
code insufficient_funds = "INSUFFICIENT_FUNDS"
code same_account_transfer = "SAME_ACCOUNT_TRANSFER"
code idempotency_key_conflict = "IDEMPOTENCY_KEY_CONFLICT"
code lock_timeout = "LOCK_TIMEOUT"
code missing_idempotency_key = "IDEMPOTENCY_KEY_REQUIRED"
code invalid_idempotency_key = "IDEMPOTENCY_KEY_INVALID"
code amount_out_of_range = "AMOUNT_OUT_OF_RANGE"
code internal_error = "INTERNAL_ERROR"
code validation_failed = "VALIDATION_ERROR"

unfoldable pub retryable : ErrorType → Bool
retryable lock_timeout = true
retryable internal_error = true
retryable _ = false

-- An instance of `LedgerError`: its class, `message` and `details`.
pub record LedgerError : Type 0 where
  pub kind : ErrorType
  pub message : String
  pub details : Fields

-- `if self.details: payload["details"] = self.details`
unfoldable pub with_details : Fields → Fields
with_details end = end
with_details (field k v fs) = field "details" (obj (field k v fs)) end

-- `LedgerError.body`
unfoldable pub body : LedgerError → Json
unfolding with_details code
body e = obj (
    field "error"
      (obj (
        field "code" (str (code e.kind))
          (field "message" (str e.message) (with_details e.details))))
      end)

-- What a call may raise: a domain error, or an exception of SQLAlchemy with the SQLSTATE of the
-- driver's error, if it has one. `other_exception` is any class that no branch names.
pub data Exn : Type 0 where
  ledger : LedgerError → Exn
  integrity_error data_error operational_error : Option String → Exn
  other_exception : String → Exn

-- `sqlstate` of app/services/idempotency.py
unfoldable pub sqlstate : Exn → Option String
sqlstate (integrity_error state) = state
sqlstate (data_error state) = state
sqlstate (operational_error state) = state
sqlstate _ = none
