-- ===== src/Tests/Samples.antt =====
-- Requests and results that the witnesses share.
use chekin_interview.Base.{String, ◌≢◌, false, List, [], ◌∷◌, arith}
use chekin_interview.Base.Int.{pos, ◌<ℤ◌}
use chekin_interview.Json.{null, end}
use chekin_interview.Errors.{LedgerError, ledger, other_exception, same_account_transfer}
use chekin_interview.Models.{IdempotencyKey}
use chekin_interview.Schemas.{TransferRequest, CreateAccountRequest, dump_transfer_request}
use chekin_interview.Database.Exec.{Result, ok, raise}
use chekin_interview.Logging.{Event, Log, info}
use chekin_interview.Idempotency.{Outcome, fingerprint, new_claim}
use chekin_interview.Tests.{codec, pay}

pub other_not_ledger : (m : String) (y : LedgerError) → other_exception m ≢ ledger y
other_not_ledger m y h = cc h

abbrev pub same_account_error : LedgerError
same_account_error = record {
  kind = same_account_transfer;
  message = "Cannot transfer to the same account.";
  details = end;
}

abbrev pub outcome : Result Outcome → Outcome
outcome (ok o) = o
outcome (raise x) = record { status_code = 0; body = null; replayed = false }

abbrev pub first_request : TransferRequest
first_request = pay 9 4 125000

pub first_positive : pos 0 <ℤ first_request.amount
first_positive = omega arith

abbrev pub first_record : List IdempotencyKey → IdempotencyKey
first_record [] = new_claim "" "" ""
first_record (r ∷ rs) = r

abbrev pub first_hash : String
first_hash = fingerprint codec (dump_transfer_request codec first_request)

abbrev pub opening_request : CreateAccountRequest
opening_request = record { initial_balance = pos 5000000 }

-- A log at the default level, outside of every request.
abbrev pub empty_log : Log
empty_log = record { request_id = "-"; threshold = 20; lines = [] }

abbrev pub applied : Event
applied = record { level = info; event = "transfer.applied"; bound = end }
