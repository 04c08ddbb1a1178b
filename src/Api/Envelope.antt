-- ===== src/Api/Envelope.antt =====
-- What a client is told when a request fails.
use chekin_interview.Base.{
  String, List, ap, ◌≡◌, ◌≢◌, ◌∙◌, sym, refl, true, Option, none, some, arith, if◌then◌else◌,
}
use chekin_interview.Json.{Json, str, obj, arr, Fields, end, field, member}
use chekin_interview.Errors.{
  ErrorType, LedgerError, Exn, ledger, integrity_error, data_error, operational_error,
  other_exception, internal_error, validation_failed, status_code, code, retryable, body,
  with_details,
}
use chekin_interview.Schemas.{ErrorResponse, optional_details, dump_error_response}
use chekin_interview.Database.Exec.{Result, ok, raise}
use chekin_interview.Api.{
  Response, FieldError, get_header, summarise, unexpected, validation_error_handler,
  unhandled_error_handler, respond,
}

-- The error class that a client sees for an exception.
abbrev pub shown_as : Exn → ErrorType
shown_as (ledger x) = x.kind
shown_as _ = internal_error

-- `response["error"]["code"]`
abbrev pub error_code : Json → Option Json
error_code j = elim (member "error" j) [ none ↦ none | some inner ↦ member "code" inner ]

-- The one envelope: the status and the code of an error class, in the shape of ErrorResponse.
pub record IsEnvelope (k : ErrorType) (r : Response) : Type 0 where
  pub status_of : r.status ≡ status_code k
  pub code_of : error_code r.content ≡ some (str (code k))
  pub model : ErrorResponse
  pub content_of : r.content ≡ dump_error_response model

-- How a request to an endpoint fails: its body or path is not valid, or the endpoint raises. The
-- HTTPExceptions that Starlette raises before any endpoint (404, 405, an unreadable body) are answered
-- by its own handler, and the probe /ready answers for itself.
pub data Failure : Type 0 where
  invalid : List FieldError → Failure
  raised : Exn → Failure

abbrev pub failed_as : Failure → ErrorType
failed_as (invalid errors) = validation_failed
failed_as (raised x) = shown_as x

abbrev pub reply : Failure → Result Response
reply (invalid errors) = ok (validation_error_handler errors)
reply (raised x) = raise x

filled : Fields → Option Fields
filled end = none
filled (field k v fs) = some (field k v fs)

-- `body` has the shape of ErrorResponse.
body-ErrorResponse : (x : LedgerError) → (m : ErrorResponse) × (body x ≡ dump_error_response m)
unfolding body dump_error_response filled with_details
body-ErrorResponse x = (
  record { error = record { code = code x.kind; message = x.message; details = filled x.details } },
  ap
      (λ d. obj (
        field "error" (obj (field "code" (str (code x.kind)) (field "message" (str x.message) d)))
          end))
      (same x.details),
)
  where
    same : (d : Fields) → with_details d ≡ optional_details (filled d)
    same end = refl
    same (field k v fs) = refl

body-code : (x : LedgerError) → error_code (body x) ≡ some (str (code x.kind))
unfolding body with_details
body-code x = go x.details
  where
    go :
        (d : Fields)
        → error_code (
            obj (
              field "error"
                (obj (
                  field "code"
                    (str (code x.kind))
                    (field "message" (str x.message) (with_details d))))
                end))
          ≡ some (str (code x.kind))
    go end = refl
    go (field k v fs) = refl

body-IsEnvelope :
    (x : LedgerError) (r : Response)
    → r.status ≡ status_code x.kind
    → r.content ≡ body x
    → IsEnvelope x.kind r
body-IsEnvelope x r p q =
    let (m, h) = body-ErrorResponse x in
    record { status_of = p; code_of = ap error_code q ∙ body-code x; model = m; content_of = q ∙ h }

-- What the three exception handlers of app/main.py answer for a request that is not valid, or for an
-- exception that an endpoint raises, is the one envelope, with the status and the code of its class and
-- the shape of ErrorResponse: the class VALIDATION_ERROR for the former, its own for a LedgerError, and
-- INTERNAL_ERROR for any other exception.
pub respond-IsEnvelope :
    (given : Option String) (new : String) (f : Failure)
    → IsEnvelope (failed_as f) (respond given new (reply f))
unfolding respond validation_error_handler status_code code dump_error_response
respond-IsEnvelope given new (invalid errors) = record {
  status_of = refl;
  code_of = refl;
  model = record {
    error = record {
      code = "VALIDATION_ERROR";
      message = "Request body failed validation.";
      details = some (field "fields" (arr (summarise errors)) end);
    };
  };
  content_of = refl;
}
respond-IsEnvelope given new (raised (ledger x)) = body-IsEnvelope x _ refl refl
respond-IsEnvelope given new (raised (integrity_error y)) = body-IsEnvelope unexpected _ refl refl
respond-IsEnvelope given new (raised (data_error y)) = body-IsEnvelope unexpected _ refl refl
respond-IsEnvelope given new (raised (operational_error y)) = body-IsEnvelope unexpected _ refl refl
respond-IsEnvelope given new (raised (other_exception y)) = body-IsEnvelope unexpected _ refl refl

-- A domain error tells the client to retry exactly if its class is retryable.
pub respond-retry_after :
    (given : Option String) (new : String) (x : LedgerError)
    → get_header "Retry-After" (respond given new (raise (ledger x))).headers
      ≡ (if retryable x.kind then some "1" else none)
unfolding respond
respond-retry_after given new x = ground arith

-- The catch-all response carries neither Retry-After, though its class is retryable, nor the
-- request's id.
pub respond-unhandled :
    (given : Option String) (new : String) (x : Exn)
    → ((y : LedgerError) → x ≢ ledger y)
    → (get_header "Retry-After" (respond given new (raise x)).headers ≡ none)
      × (get_header "X-Request-ID" (respond given new (raise x)).headers ≡ none)
      × (retryable (shown_as x) ≡ true)
unfolding respond retryable
respond-unhandled given new (ledger y) h = absurd (h y refl)
respond-unhandled given new (integrity_error y) h = (refl, refl, refl)
respond-unhandled given new (data_error y) h = (refl, refl, refl)
respond-unhandled given new (operational_error y) h = (refl, refl, refl)
respond-unhandled given new (other_exception y) h = (refl, refl, refl)

unhandled :
    (given : Option String) (new : String) (x : Exn)
    → ((y : LedgerError) → x ≢ ledger y)
    → respond given new (raise x) ≡ unhandled_error_handler (other_exception "")
unfolding respond
unhandled given new (ledger y) h = absurd (h y refl)
unhandled given new (integrity_error y) h = refl
unhandled given new (data_error y) h = refl
unhandled given new (operational_error y) h = refl
unhandled given new (other_exception y) h = refl

-- An unforeseen exception's own text does not reach the client: any two give the same response.
pub respond-no_leak :
    (given : Option String) (new : String) (x y : Exn)
    → ((z : LedgerError) → x ≢ ledger z)
    → ((z : LedgerError) → y ≢ ledger z)
    → respond given new (raise x) ≡ respond given new (raise y)
respond-no_leak given new x y h k = unhandled given new x h ∙ sym (unhandled given new y k)
