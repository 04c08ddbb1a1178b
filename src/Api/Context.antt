-- ===== src/Api/Context.antt =====
-- `request_context` of app/main.py with the context variable that it sets, and the catch-all outside
-- of it: which lines of the log carry a request's id.
use chekin_interview.Base.{
  ℕ, String, ◌≡◌, refl, Option, List, [], ◌∷◌, ◌++◌, ◌∙◌, sym, append_assoc, append-nil,
}
use chekin_interview.Errors.{
  ledger, integrity_error, data_error, operational_error, other_exception,
}
use chekin_interview.Database.Exec.{Result, ok, raise}
use chekin_interview.Json.{end}
use chekin_interview.Logging.{Event, Line, Log, error, log, log_all, kept}
use chekin_interview.Api.{
  Response, handled, request_id, request_context, unhandled_error_handler, respond,
}

-- The middleware: the variable is set for the call and reset in its `finally`.
unfoldable pub in_context : String → (Log → Result Response × Log) → Log → Result Response × Log
in_context id call_next l =
    let token = l.request_id in
    let (r, after) = call_next (record l { request_id = id }) in
    (request_context id r, record after { request_id = token })

-- The line of the catch-all. What it tells of the exception, its class and its text, is left out.
abbrev pub unhandled_error : Event
unhandled_error = record { level = error; event = "request.unhandled_error"; bound = end }

-- `unhandled_error_handler` with its line of the log, where it is called.
unfoldable pub catch_logged : Result Response × Log → Response × Log
unfolding log
catch_logged (ok r, l) = (r, l)
catch_logged (raise x, l) = (unhandled_error_handler x, log unhandled_error l)

-- A request whose endpoint logs `events` and then returns or raises.
unfoldable pub respond_logged :
    Option String → String → List Event → Result Response → Log → Response × Log
unfolding in_context catch_logged log_all
respond_logged given new events r l =
    catch_logged (in_context (request_id given new) (λ inner. (handled r, log_all events inner)) l)

-- The lines of events under one id.
abbrev pub stamped : ℕ → String → List Event → List Line
stamped threshold id [] = []
stamped threshold id (x ∷ xs) = kept threshold id x ++ stamped threshold id xs

-- The line of the catch-all, for an exception that is no domain error.
abbrev pub catch_all_lines : ℕ → String → Result Response → List Line
catch_all_lines threshold id (ok r) = []
catch_all_lines threshold id (raise (ledger x)) = []
catch_all_lines threshold id (raise _) = kept threshold id unhandled_error

log_all-request_id : (events : List Event) (l : Log) → (log_all events l).request_id ≡ l.request_id
unfolding log_all log
log_all-request_id [] l = refl
log_all-request_id (x ∷ xs) l = log_all-request_id xs (log x l)

log_all-lines :
    (events : List Event) (l : Log)
    → (log_all events l).lines ≡ l.lines ++ stamped l.threshold l.request_id events
unfolding log_all log
log_all-lines [] l = sym (append-nil l.lines)
log_all-lines (x ∷ xs) l =
    log_all-lines xs (log x l)
    ∙ append_assoc l.lines (kept l.threshold l.request_id x) (stamped l.threshold l.request_id xs)

abbrev inside : String → Log → Log
inside id l = record l { request_id = id }

log_all-threshold : (events : List Event) (l : Log) → (log_all events l).threshold ≡ l.threshold
unfolding log_all log
log_all-threshold [] l = refl
log_all-threshold (x ∷ xs) l = log_all-threshold xs (log x l)

-- The lines that a failed request leaves, with that of the catch-all.
inside-lines :
    (id : String) (events : List Event) (l : Log)
    → (log_all events (inside id l)).lines
        ++ kept (log_all events (inside id l)).threshold l.request_id unhandled_error
      ≡ (l.lines ++ stamped l.threshold id events) ++ kept l.threshold l.request_id unhandled_error
inside-lines id events l = λ i.
    log_all-lines events (inside id l) i
    ++ kept (log_all-threshold events (inside id l) i) l.request_id unhandled_error

-- A request's lines carry its id, the variable has its old value after the request, and the response
-- is that of `respond`; the line of the catch-all alone carries the old value, which is "-" where no
-- request is around it, and not the request's id.
pub respond_logged-lines :
    (given : Option String) (new : String) (events : List Event) (r : Result Response) (l : Log)
    → let (reply, after) = respond_logged given new events r l in
      (reply ≡ respond given new r)
      × (after.request_id ≡ l.request_id)
      × (after.lines
          ≡ (l.lines ++ stamped l.threshold (request_id given new) events)
            ++ catch_all_lines l.threshold l.request_id r)
unfolding respond_logged respond
respond_logged-lines given new events (ok r) l =
    (refl, refl, log_all-lines events (inside (request_id given new) l) ∙ sym (append-nil _))
respond_logged-lines given new events (raise (ledger x)) l =
    (refl, refl, log_all-lines events (inside (request_id given new) l) ∙ sym (append-nil _))
respond_logged-lines given new events (raise (integrity_error x)) l =
    (refl, refl, inside-lines (request_id given new) events l)
respond_logged-lines given new events (raise (data_error x)) l =
    (refl, refl, inside-lines (request_id given new) events l)
respond_logged-lines given new events (raise (operational_error x)) l =
    (refl, refl, inside-lines (request_id given new) events l)
respond_logged-lines given new events (raise (other_exception x)) l =
    (refl, refl, inside-lines (request_id given new) events l)
