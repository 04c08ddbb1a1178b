-- ===== src/Errors/Documented.antt =====
-- `openapi_responses` of app/errors.py: the failures of an endpoint as its documentation lists them, and
-- the lists that app/routers/ gives it.
use Prim.Native.String.{◌++◌ as text_append}
use chekin_interview.Base.{ℕ, String, List, [], ◌∷◌, ◌++◌, ◌==◌, str_eq, if◌then◌else◌}
use chekin_interview.Json.{Json, str, obj, Fields, end, field}
use chekin_interview.Errors.{
  ErrorType, status_code, code, ledger_error, account_not_found, insufficient_funds,
  same_account_transfer, idempotency_key_conflict, lock_timeout, missing_idempotency_key,
  invalid_idempotency_key, amount_out_of_range, internal_error, validation_failed,
}

unfoldable pub summary : ErrorType → String
summary ledger_error = "Request could not be processed."
summary account_not_found = "No account exists with the given id."
summary insufficient_funds =
    "The source account's balance is lower than the requested amount. Nothing was moved and the idempotency key was not consumed, so the same request may be retried once the account is funded."
summary same_account_transfer = "Source and destination are the same account."
summary idempotency_key_conflict =
    "This Idempotency-Key was already used for a request with a different body. Use a fresh key for a different request."
summary lock_timeout =
    "The accounts were locked by other transfers for longer than the configured lock timeout. No money moved. Safe to retry with the SAME idempotency key."
summary missing_idempotency_key = "The Idempotency-Key header is missing or blank."
summary invalid_idempotency_key = "The Idempotency-Key header is longer than 255 characters."
summary amount_out_of_range =
    "The resulting balance would exceed the maximum the ledger can represent. Nothing was moved and the idempotency key was not consumed."
summary internal_error = "An unexpected internal error occurred. The request was not applied."
summary validation_failed = "The request body or a path parameter failed schema validation."

abbrev pub Groups : Type 0
Groups = List (ℕ × List ErrorType)

-- `grouped.setdefault(error_type.status_code, []).append(error_type)`
unfoldable pub add_type : ErrorType → Groups → Groups
unfolding status_code
add_type t [] = (status_code t, t ∷ []) ∷ []
add_type t ((s, ts) ∷ rest) =
    if s == status_code t then (s, ts ++ t ∷ []) ∷ rest else (s, ts) ∷ add_type t rest

-- The first loop, from the groups that are there.
unfoldable pub group : Groups → List ErrorType → Groups
unfolding add_type
group grouped [] = grouped
group grouped (t ∷ ts) = group (add_type t grouped) ts

-- `d[k] = v`: a key that is there keeps its place.
unfoldable pub set_field : String → Json → Fields → Fields
set_field k v end = field k v end
set_field k v (field j w fs) = if str_eq j k then field j v fs else field j w (set_field k v fs)

unfoldable pub example : ErrorType → Json
unfolding summary code
example t = obj (
    field "summary" (str (code t)) (
      field "value"
        (obj (
          field "error" (obj (field "code" (str (code t)) (field "message" (str (summary t)) end)))
            end))
        end))

-- The dictionary of examples, from the entries that are there.
unfoldable pub examples : Fields → List ErrorType → Fields
unfolding set_field example
examples made [] = made
examples made (t ∷ ts) = examples (set_field (code t) (example t) made) ts

-- One line of a description.
abbrev line : ErrorType → String
line t = text_append "**" (text_append (code t) (text_append "** — " (summary t)))

-- `" · ".join(…)`
abbrev more_lines : List ErrorType → String
more_lines [] = ""
more_lines (t ∷ ts) = text_append " · " (text_append (line t) (more_lines ts))

unfoldable pub description : List ErrorType → String
unfolding summary
description [] = ""
description (t ∷ ts) = text_append (line t) (more_lines ts)

-- One entry of the responses; `model` names the class of the envelope.
pub record Documented : Type 0 where
  pub model : String
  pub description : String
  pub content : Json

unfoldable pub document : List ErrorType → Documented
unfolding description examples
document types = record {
  model = "ErrorResponse";
  description = description types;
  content =
      obj (field "application/json" (obj (field "examples" (obj (examples end types)) end)) end);
}

-- The second loop.
unfoldable pub document_all : Groups → List (ℕ × Documented)
unfolding document
document_all [] = []
document_all ((s, types) ∷ rest) = (s, document types) ∷ document_all rest

unfoldable pub openapi_responses : List ErrorType → List (ℕ × Documented)
unfolding group document_all
openapi_responses error_types = document_all (group [] error_types)

-- The failures that `create_transfer` documents.
abbrev pub transfer_errors : List ErrorType
transfer_errors =
    missing_idempotency_key ∷ invalid_idempotency_key ∷ same_account_transfer ∷ account_not_found
    ∷ idempotency_key_conflict ∷ insufficient_funds ∷ amount_out_of_range ∷ validation_failed
    ∷ lock_timeout ∷ []

-- The failures that `create_account` documents.
abbrev pub account_errors : List ErrorType
account_errors =
    missing_idempotency_key ∷ invalid_idempotency_key ∷ idempotency_key_conflict ∷ validation_failed
    ∷ lock_timeout ∷ []

-- The failures that `get_balance` and `list_transactions` document.
abbrev pub read_errors : List ErrorType
read_errors = account_not_found ∷ validation_failed ∷ []
