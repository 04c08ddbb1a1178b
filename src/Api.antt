-- ===== src/Api.antt =====
-- The HTTP side: the handlers of app/main.py, the endpoints of app/routers/, and the middleware that
-- carries the request id. A payload here has its fields, and the constraints
-- that app/schemas.py declares on them are checked; Bodies has the endpoints from the JSON of a body.
pub mod Bodies
pub mod Context
pub mod Envelope
pub mod Kinds
pub mod Logged
pub mod Reads
pub mod Routes
pub mod Served
pub mod Succeeds
use chekin_interview.Base.{
  ℕ, String, Bool, true, false, Option, none, some, List, [], ◌∷◌, ◌++◌, str_eq, if◌then◌else◌,
}
use Prim.Native.String.{◌++◌ as text_append}
use chekin_interview.Json.{Json, str, obj, arr, Items, nil, cons, end, field}
use chekin_interview.Errors.{LedgerError, Exn, ledger, internal_error, status_code, retryable, body}
use chekin_interview.Schemas.{
  Codec, TransferRequest, CreateAccountRequest, TransactionItem, is_positive_money,
  is_non_negative_money, dump_balance_response, dump_transaction_item,
}
use chekin_interview.Database.{Engine}
use chekin_interview.Database.Exec.{Result, ok, raise, Exec, pure, lift, ◌>>=◌}
use chekin_interview.Idempotency.{Outcome}
use chekin_interview.Idempotency.Key.{require_key}
use chekin_interview.Transfers
use chekin_interview.Accounts
use chekin_interview.Accounts.History

abbrev pub Headers : Type 0
Headers = List (String × String)

pub record Response : Type 0 where
  pub status : ℕ
  pub content : Json
  pub headers : Headers

-- A header by its name, or `None`.
abbrev pub get_header : String → Headers → Option String
get_header k [] = none
get_header k ((j, v) ∷ rest) = if str_eq j k then some v else get_header k rest

-- `ledger_error_handler`
unfoldable pub ledger_error_handler : LedgerError → Response
ledger_error_handler exc = record {
  status = status_code exc.kind;
  content = body exc;
  headers = if retryable exc.kind then ("Retry-After", "1") ∷ [] else [];
}

-- One error of `RequestValidationError.errors()`: its location and message.
pub record FieldError : Type 0 where
  pub loc : List String
  pub msg : String

-- `".".join(parts)`
abbrev join_rest : List String → String
join_rest [] = ""
join_rest (x ∷ xs) = text_append "." (text_append x (join_rest xs))

unfoldable pub join : List String → String
join [] = ""
join (x ∷ xs) = text_append x (join_rest xs)

abbrev pub tail : List String → List String
tail [] = []
tail (x ∷ xs) = xs

-- `".".join(…) or "body"`
unfoldable pub field_name : List String → String
unfolding join
field_name loc = let name = join (tail loc) in if str_eq name "" then "body" else name

-- `_summarise`
unfoldable pub summarise : List FieldError → Items
unfolding field_name
summarise [] = nil
summarise (x ∷ xs) =
    cons (obj (field "field" (str (field_name x.loc)) (field "reason" (str x.msg) end)))
      (summarise xs)

-- `validation_error_handler`
unfoldable pub validation_error_handler : List FieldError → Response
unfolding summarise
validation_error_handler errors = record {
  status = 422;
  content = obj (
      field "error"
        (obj (
          field "code" (str "VALIDATION_ERROR") (
            field "message" (str "Request body failed validation.")
              (field "details" (obj (field "fields" (arr (summarise errors)) end)) end))))
        end);
  headers = [];
}

abbrev pub unexpected : LedgerError
unexpected = record {
  kind = internal_error;
  message = "An unexpected error occurred. The request was not applied.";
  details = end;
}

-- `unhandled_error_handler`: nothing of the exception goes into the response.
unfoldable pub unhandled_error_handler : Exn → Response
unhandled_error_handler exc = record {
  status = status_code internal_error;
  content = body unexpected;
  headers = [];
}

-- `response.status_code = …; response.headers["Idempotent-Replay"] = …; return outcome.body`
unfoldable pub answer : Outcome → Response
answer o = record {
  status = o.status_code;
  content = o.body;
  headers = ("Idempotent-Replay", if o.replayed then "true" else "false") ∷ [];
}

abbrev pub plain : Json → Response
plain j = record { status = 200; content = j; headers = [] }

-- What reaches the middleware: a domain error has become a response, and any other exception goes
-- on, to be handled outside of it.
unfoldable pub handled : Result Response → Result Response
unfolding ledger_error_handler
handled (ok r) = ok r
handled (raise (ledger x)) = ok (ledger_error_handler x)
handled (raise x) = raise x

-- `request.headers.get("X-Request-ID") or new_request_id()`
unfoldable pub request_id : Option String → String → String
request_id none new = new
request_id (some given) new = if str_eq given "" then new else given

-- `request_context`: a response gets the request's id, an exception passes through.
unfoldable pub request_context : String → Result Response → Result Response
request_context id (ok r) = ok (record r { headers = r.headers ++ ("X-Request-ID", id) ∷ [] })
request_context id (raise x) = raise x

-- The catch-all, which FastAPI runs outside of every middleware.
unfoldable pub catch_all : Result Response → Response
unfolding unhandled_error_handler
catch_all (ok r) = r
catch_all (raise x) = unhandled_error_handler x

-- From what an endpoint returns or raises to what the client gets. An endpoint raises no HTTPException
-- of Starlette, which has a handler of its own.
unfoldable pub respond : Option String → String → Result Response → Response
unfolding handled request_context request_id catch_all
respond given new r = catch_all (request_context (request_id given new) (handled r))

-- `TransactionListResponse`
unfoldable pub items_json : Codec → List TransactionItem → Items
items_json c [] = nil
items_json c (x ∷ xs) = cons (dump_transaction_item c x) (items_json c xs)

unfoldable pub transactions_body : Codec → ℕ → List TransactionItem → Json
unfolding items_json
transactions_body c account_id items = obj (
    field "account_id" (str (c.uuid_text account_id))
      (field "items" (arr (items_json c items)) end))

module _ (e : Engine) (c : Codec) where
  open e use {Session}

  -- `create_transfer` of app/routers/transfers.py
  unfoldable pub create_transfer : TransferRequest → Option String → Exec Session Response
  unfolding answer
  create_transfer payload idempotency_key = do
    key ← lift (require_key idempotency_key)
    outcome ← Transfers.execute_transfer e c key payload
    pure (answer outcome)

  -- `create_account` of app/routers/accounts.py
  unfoldable pub create_account : CreateAccountRequest → Option String → Exec Session Response
  unfolding answer
  create_account payload idempotency_key = do
    key ← lift (require_key idempotency_key)
    outcome ← Accounts.create_account e c key payload
    pure (answer outcome)

  -- `get_balance`
  unfoldable pub get_balance : ℕ → Exec Session Response
  get_balance account_id = do
    account ← Accounts.read_account e c account_id
    pure (plain (dump_balance_response c account.id account.balance))

  -- `list_transactions` of app/routers/accounts.py, which names the account that it was asked for.
  unfoldable pub list_transactions : ℕ → Exec Session Response
  unfolding transactions_body
  list_transactions account_id = do
    items ← History.list_transactions e c account_id
    pure (plain (transactions_body c account_id items))

  -- The routes with their validation: an amount that its field does not admit never reaches the
  -- endpoint.
  unfoldable pub post_transfers :
      List FieldError → TransferRequest → Option String → Exec Session Response
  post_transfers errors payload idempotency_key =
      if is_positive_money payload.amount
      then create_transfer payload idempotency_key
      else pure (validation_error_handler errors)

  unfoldable pub post_accounts :
      List FieldError → CreateAccountRequest → Option String → Exec Session Response
  post_accounts errors payload idempotency_key =
      if is_non_negative_money payload.initial_balance
      then create_account payload idempotency_key
      else pure (validation_error_handler errors)
