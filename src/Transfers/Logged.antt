-- ===== src/Transfers/Logged.antt =====
-- `execute_transfer` of app/services/transfers.py with its lines of the log: those of `execute_once`,
-- and one for a transfer that it has executed.
pub mod Honest
pub mod Moved
use chekin_interview.Base.{List, [], ◌∷◌, ℕ, String, Option, none, some, ◌==◌, if◌then◌else◌}
use chekin_interview.Json.{Json, str, Fields, end, field, member}
use chekin_interview.Errors.{Exn, other_exception}
use chekin_interview.Schemas.{Codec, TransferRequest, dump_transfer_request}
use chekin_interview.Schemas.Money.{money_text}
use chekin_interview.Database.{Engine}
use chekin_interview.Database.Exec.{Exec, pure, throw, ◌>>=◌, ◌>>◌}
use chekin_interview.Logging.{Event, info}
use chekin_interview.Idempotency.{Outcome}
use chekin_interview.Idempotency.Logged.{Noted, note, committed_line, execute_once_noted}
use chekin_interview.Transfers.{operation, same_account, move_money}

-- The line of a transfer. `amount_text` is `str(req.amount)`, which keeps the decimal places that the
-- client wrote.
abbrev pub transfer_line : Codec → String → TransferRequest → String → Json → Event
transfer_line c idempotency_key req amount_text transfer_id = record {
  level = info;
  event = "transfer.committed";
  bound = field "transfer_id" transfer_id (
      field "idempotency_key" (str idempotency_key) (
        field "from_account_id" (str (c.uuid_text req.from_account_id)) (
          field "to_account_id" (str (c.uuid_text req.to_account_id))
            (field "amount" (str amount_text) end))));
}

-- The lines of a call that has executed a transfer: its commit's, and one that names the transfer.
abbrev pub announced : Codec → String → TransferRequest → String → Json → List Event
announced c idempotency_key req amount_text transfer_id =
    committed_line operation idempotency_key
    ∷ transfer_line c idempotency_key req amount_text transfer_id
    ∷ []

module _ (e : Engine) (c : Codec) (idempotency_key : String) (req : TransferRequest)
    (amount_text : String) where
  open e use {Session}

  -- `outcome.body["transfer_id"]`, which raises a KeyError for a missing field.
  unfoldable pub note_transfer : Outcome → Option Json → Exec (Noted Session) Outcome
  note_transfer outcome none = throw (other_exception "KeyError")
  note_transfer outcome (some transfer_id) = do
    note (transfer_line c idempotency_key req amount_text transfer_id)
    pure outcome

  unfoldable pub note_outcome : Outcome → Exec (Noted Session) Outcome
  unfolding note_transfer
  note_outcome outcome =
      if outcome.replayed
      then pure outcome
      else note_transfer outcome (member "transfer_id" outcome.body)

  -- `execute_transfer`
  unfoldable pub execute_transfer_noted : Exec (Noted Session) Outcome
  execute_transfer_noted =
      if req.from_account_id == req.to_account_id then throw same_account else do
        outcome ←
            execute_once_noted e c idempotency_key operation (dump_transfer_request c req)
              (λ claim. move_money e c claim req)
        note_outcome outcome
