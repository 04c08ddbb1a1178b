-- ===== src/Idempotency/Logged.antt =====
-- app/services/idempotency.py with the lines that it logs: `replay` and `execute_once` again, on a
-- session with the events that the call has logged so far.
pub mod Erased
pub mod Gives
pub mod Tells
use chekin_interview.Base.{
  ℕ, String, Bool, true, false, not, ◌&&◌, ◌||◌, Option, none, some, List, [], ◌∷◌, ◌++◌, str_eq,
  if◌then◌else◌,
}
use chekin_interview.Json.{Json, null, num, str, bool, Fields, end, field}
use chekin_interview.Errors.{
  Exn, ledger, integrity_error, data_error, operational_error, other_exception,
}
use chekin_interview.Schemas.{Codec}
use chekin_interview.Models.{IdempotencyKey}
use chekin_interview.Database.{Engine}
use chekin_interview.Database.Exec.{
  Result, ok, Exec, pure, throw, lift, finally, catch, ◌>>=◌, ◌>>◌,
}
use chekin_interview.Logging.{Event, info, warning, error}
use chekin_interview.Idempotency.{
  Outcome, fingerprint, replay, new_claim, has_state, claim_and_perform, vanished, out_of_range,
  busy, contention, pg_unique_violation, pg_numeric_out_of_range, pg_lock_not_available,
  pg_deadlock_detected,
}

-- A session, and what the call has logged.
pub record Noted (S : Type 0) : Type 0 where
  pub session : S
  pub events : List Event

module _ {S : Type 0} where
  -- One call of the logger.
  abbrev pub note : Event → Exec (Noted S) (Unit {0})
  note x n = (ok tt, record n { events = n.events ++ x ∷ [] })

  -- Code that logs nothing.
  abbrev pub silent : {A : Type 0} → Exec S A → Exec (Noted S) A
  silent m n = let (r, s) = m n.session in (r, record n { session = s })

-- `operation=operation, idempotency_key=key`
abbrev pub named : String → String → Fields → Fields
named operation key rest =
    field "operation" (str operation) (field "idempotency_key" (str key) rest)

abbrev pub or_null_text : Codec → Option ℕ → Json
or_null_text c none = null
or_null_text c (some i) = str (c.uuid_text i)

abbrev pub or_null_number : Option ℕ → Json
or_null_number none = null
or_null_number (some i) = num i

abbrev pub replayed_line : Codec → IdempotencyKey → String → Bool → Event
replayed_line c r operation raced = record {
  level = info;
  event = "idempotency.replayed";
  bound = named operation r.key (
      field "resource_id" (or_null_text c r.resource_id) (
        field "original_status" (or_null_number r.response_status)
          (field "raced" (bool raced) end)));
}

-- The line after the commit. Its `resource_id`, which the work has set on the record, is left out.
abbrev pub committed_line : String → String → Event
committed_line operation key = record {
  level = info;
  event = "idempotency.committed";
  bound = named operation key end;
}

abbrev pub vanished_line : String → String → Event
vanished_line operation key = record {
  level = error;
  event = "idempotency.record_vanished";
  bound = named operation key end;
}

abbrev pub out_of_range_line : String → String → Event
out_of_range_line operation key = record {
  level = warning;
  event = "ledger.value_out_of_range";
  bound = named operation key end;
}

abbrev pub lock_timeout_line : String → String → Event
lock_timeout_line operation key = record {
  level = warning;
  event = "idempotency.lock_timeout";
  bound = named operation key end;
}

abbrev pub deadlock_line : String → String → Event
deadlock_line operation key = record {
  level = error;
  event = "idempotency.deadlock";
  bound = named operation key end;
}

module _ (e : Engine) (c : Codec) where
  open e use {Session, get_key, rollback}

  -- `replay`, which logs the answer that it gives.
  unfoldable pub replay_noted :
      IdempotencyKey → String → String → Bool → Exec (Noted Session) Outcome
  replay_noted r operation request_hash raced = do
    outcome ← lift (replay r operation request_hash)
    note (replayed_line c r operation raced)
    pure outcome

  unfoldable pub replay_existing_noted :
      Option IdempotencyKey → String → String → Exec (Noted Session) (Option Outcome)
  replay_existing_noted none operation request_hash = pure none
  replay_existing_noted (some r) operation request_hash = do
    outcome ← replay_noted r operation request_hash false
    pure (some outcome)

  abbrev pub rolled_back : Noted Session → Noted Session
  rolled_back n = record n { session = rollback n.session }

  -- The first `try` block.
  unfoldable pub fast_path_noted : String → String → String → Exec (Noted Session) (Option Outcome)
  fast_path_noted key operation request_hash =
      finally
        (do existing ← silent (get_key key); replay_existing_noted existing operation request_hash)
        rolled_back

  -- The body of the second `try` block, with the line after the commit.
  unfoldable pub claim_and_perform_noted :
      IdempotencyKey → (IdempotencyKey → Exec Session Outcome) → Exec (Noted Session) Outcome
  claim_and_perform_noted claim perform = do
    outcome ← silent (claim_and_perform e claim perform)
    note (committed_line claim.operation claim.key)
    pure outcome

  unfoldable pub replay_winner_noted :
      String → Option IdempotencyKey → String → String → Exec (Noted Session) Outcome
  replay_winner_noted key none operation request_hash = do
    note (vanished_line operation key)
    throw vanished
  replay_winner_noted key (some r) operation request_hash =
      replay_noted r operation request_hash true

  -- The `except` branches, after their `db.rollback()`.
  unfoldable pub handle_failure_noted :
      String → String → String → Exn → Exec (Noted Session) Outcome
  unfolding has_state
  handle_failure_noted key operation request_hash (integrity_error state) =
      if not (has_state (integrity_error state) pg_unique_violation)
      then throw (integrity_error state)
      else (do winner ← silent (get_key key); replay_winner_noted key winner operation request_hash)
  handle_failure_noted key operation request_hash (data_error state) =
      if not (has_state (data_error state) pg_numeric_out_of_range)
      then throw (data_error state)
      else (do note (out_of_range_line operation key); throw out_of_range)
  handle_failure_noted key operation request_hash (operational_error state) =
      if has_state (operational_error state) pg_lock_not_available
      then (do note (lock_timeout_line operation key); throw busy)
      else if has_state (operational_error state) pg_deadlock_detected
      then (do note (deadlock_line operation key); throw contention)
      else throw (operational_error state)
  handle_failure_noted key operation request_hash (ledger x) = throw (ledger x)
  handle_failure_noted key operation request_hash (other_exception x) = throw (other_exception x)

  unfoldable pub recover_noted : String → String → String → Exn → Exec (Noted Session) Outcome
  recover_noted key operation request_hash x n =
      handle_failure_noted key operation request_hash x (rolled_back n)

  unfoldable pub after_fast_path_noted :
      String
      → String
      → String
      → (IdempotencyKey → Exec Session Outcome)
      → Option Outcome
      → Exec (Noted Session) Outcome
  after_fast_path_noted key operation request_hash perform (some outcome) = pure outcome
  after_fast_path_noted key operation request_hash perform none =
      catch (claim_and_perform_noted (new_claim key operation request_hash) perform)
        (recover_noted key operation request_hash)

  -- `execute_once`, whose work logs nothing.
  unfoldable pub execute_once_noted :
      String
      → String
      → Json
      → (IdempotencyKey → Exec Session Outcome)
      → Exec (Noted Session) Outcome
  unfolding fast_path_noted after_fast_path_noted fingerprint
  execute_once_noted key operation req perform = do
    let request_hash = fingerprint c req
    early ← fast_path_noted key operation request_hash
    after_fast_path_noted key operation request_hash perform early
