-- ===== src/Api/Logged.antt =====
-- POST /transfers with its lines of the log: the endpoint of app/routers/transfers.py, with the session
-- of app/db.py, in the context of app/main.py.
pub mod Endpoint
pub mod Honest
use chekin_interview.Base.{String, Option, List, [], if◌then◌else◌}
use chekin_interview.Schemas.{Codec, TransferRequest, is_positive_money}
use chekin_interview.Database.{Engine}
use chekin_interview.Database.Exec.{Exec, pure, lift, ◌>>=◌}
use chekin_interview.Database.Sessions.{SessionMaker}
use chekin_interview.Logging.{Log}
use chekin_interview.Idempotency.Key.{require_key}
use chekin_interview.Idempotency.Logged.{Noted}
use chekin_interview.Transfers.Logged.{execute_transfer_noted}
use chekin_interview.Api.{Response, FieldError, answer, validation_error_handler}
use chekin_interview.Api.Context.{respond_logged}

module _ (e : Engine) (c : Codec) where
  open e use {Session}

  -- `post_transfers`, which logs what `execute_transfer` does.
  unfoldable pub post_transfers_noted :
      List FieldError → TransferRequest → String → Option String → Exec (Noted Session) Response
  unfolding answer
  post_transfers_noted errors payload amount_text idempotency_key =
      if is_positive_money payload.amount
      then (do
        key ← lift (require_key idempotency_key)
        outcome ← execute_transfer_noted e c key payload amount_text
        pure (answer outcome))
      else pure (validation_error_handler errors)

  -- From the request to the response, with the lines that it leaves.
  unfoldable pub serve_logged :
      SessionMaker e
      → Option String
      → String
      → Exec (Noted Session) Response
      → Session
      → Log
      → (Response × Log) × Session
  unfolding respond_logged
  serve_logged maker given new route s l =
      let (r, n) = route (record { session = maker.new_session s; events = [] }) in
      (respond_logged given new n.events r l, maker.close n.session)
