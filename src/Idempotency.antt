-- ===== src/Idempotency.antt =====
-- app/services/idempotency.py: exactly-once execution. The same functions with their log lines are in
-- Logged.
pub mod Contract
pub mod Key
pub mod Kinds
pub mod Logged
pub mod Once
pub mod Replay
pub mod Runs
pub mod Stored
use chekin_interview.Base.{
  ℕ, String, Bool, true, false, not, ◌&&◌, ◌||◌, Option, none, some, List, [], ◌∷◌, str_eq,
  if◌then◌else◌,
}
use chekin_interview.Json.{Json, null, str, end, field}
use chekin_interview.Errors.{
  LedgerError, Exn, ledger, integrity_error, data_error, operational_error, other_exception,
  idempotency_key_conflict, internal_error, amount_out_of_range, lock_timeout, sqlstate,
}
use chekin_interview.Schemas.{Codec}
use chekin_interview.Models.{IdempotencyKey, Write, add_key}
use chekin_interview.Database.{Engine}
use chekin_interview.Database.Exec.{
  Result, ok, raise, Exec, pure, throw, lift, finally, catch, ◌>>=◌, ◌>>◌,
}

-- `class Outcome`
pub record Outcome : Type 0 where
  pub status_code : ℕ
  pub body : Json
  pub replayed : Bool

abbrev pub pg_unique_violation : String
pg_unique_violation = "23505"

abbrev pub pg_lock_not_available : String
pg_lock_not_available = "55P03"

abbrev pub pg_deadlock_detected : String
pg_deadlock_detected = "40P01"

abbrev pub pg_numeric_out_of_range : String
pg_numeric_out_of_range = "22003"

-- `fingerprint(req)`, of the request as `model_dump(mode="json")` renders it.
unfoldable pub fingerprint : Codec → Json → String
fingerprint c req = c.sha256 (c.dumps req)

-- A dictionary, or `None`, as the response.
abbrev pub or_null : Option Json → Json
or_null none = null
or_null (some j) = j

unfoldable pub conflict : IdempotencyKey → Exn
conflict r = ledger (record {
  kind = idempotency_key_conflict;
  message = "This idempotency key was already used for a different request.";
  details = field "idempotency_key" (str r.key) (field "operation" (str r.operation) end);
})

-- `replay`
unfoldable pub replay : IdempotencyKey → String → String → Result Outcome
replay r operation request_hash =
    if not (str_eq r.operation operation) || not (str_eq r.request_hash request_hash)
    then raise (conflict r)
    else ok (record { status_code = 200; body = or_null r.response_body; replayed = true })

abbrev pub vanished : Exn
vanished = ledger (record {
  kind = internal_error;
  message = "Idempotency record vanished during a concurrent retry.";
  details = end;
})

abbrev pub out_of_range : Exn
out_of_range = ledger (record {
  kind = amount_out_of_range;
  message = "The resulting balance would exceed the maximum the ledger can represent.";
  details = end;
})

abbrev pub busy : Exn
busy = ledger (record {
  kind = lock_timeout;
  message = "Resource is busy, retry with the same idempotency key.";
  details = end;
})

abbrev pub contention : Exn
contention = ledger (record {
  kind = lock_timeout;
  message = "Transient contention, retry with the same key.";
  details = end;
})

-- `sqlstate(exc) == code`
unfoldable pub has_state : Exn → String → Bool
unfolding sqlstate
has_state x code = elim (sqlstate x) [ none ↦ false | some state ↦ str_eq state code ]

-- The key row as the code makes it; the server fills in `created_at`.
abbrev pub new_claim : String → String → String → IdempotencyKey
new_claim key operation request_hash = record {
  key = key;
  operation = operation;
  request_hash = request_hash;
  resource_id = none;
  response_status = none;
  response_body = none;
  created_at = 0;
}

module _ (e : Engine) where
  open e use {Session, get_key, flush, commit, rollback}

  -- `if existing is not None: return replay(…)`
  unfoldable pub replay_existing :
      Option IdempotencyKey → String → String → Exec Session (Option Outcome)
  replay_existing none operation request_hash = pure none
  replay_existing (some r) operation request_hash = do
    outcome ← lift (replay r operation request_hash)
    pure (some outcome)

  -- The first `try` block: the fast path, which ends its read transaction in any case.
  unfoldable pub fast_path : String → String → String → Exec Session (Option Outcome)
  fast_path key operation request_hash =
      finally (do existing ← get_key key; replay_existing existing operation request_hash) rollback

  -- The body of the second `try` block.
  unfoldable pub claim_and_perform :
      IdempotencyKey → (IdempotencyKey → Exec Session Outcome) → Exec Session Outcome
  claim_and_perform claim perform = do
    flush (add_key claim ∷ [])
    outcome ← perform claim
    commit
    pure outcome

  unfoldable pub replay_winner : Option IdempotencyKey → String → String → Exec Session Outcome
  replay_winner none operation request_hash = throw vanished
  replay_winner (some r) operation request_hash = lift (replay r operation request_hash)

  -- The `except` branches, after their `db.rollback()`.
  unfoldable pub handle_failure : String → String → String → Exn → Exec Session Outcome
  unfolding has_state
  handle_failure key operation request_hash (integrity_error state) =
      if not (has_state (integrity_error state) pg_unique_violation)
      then throw (integrity_error state)
      else (do winner ← get_key key; replay_winner winner operation request_hash)
  handle_failure key operation request_hash (data_error state) =
      if not (has_state (data_error state) pg_numeric_out_of_range)
      then throw (data_error state)
      else throw out_of_range
  handle_failure key operation request_hash (operational_error state) =
      if has_state (operational_error state) pg_lock_not_available
      then throw busy
      else if has_state (operational_error state) pg_deadlock_detected
      then throw contention
      else throw (operational_error state)
  handle_failure key operation request_hash (ledger x) = throw (ledger x)
  handle_failure key operation request_hash (other_exception x) = throw (other_exception x)

  unfoldable pub recover : String → String → String → Exn → Exec Session Outcome
  recover key operation request_hash x s = handle_failure key operation request_hash x (rollback s)

  unfoldable pub after_fast_path :
      String
      → String
      → String
      → (IdempotencyKey → Exec Session Outcome)
      → Option Outcome
      → Exec Session Outcome
  after_fast_path key operation request_hash perform (some outcome) = pure outcome
  after_fast_path key operation request_hash perform none =
      catch (claim_and_perform (new_claim key operation request_hash) perform)
        (recover key operation request_hash)

  -- `execute_once`
  unfoldable pub execute_once :
      Codec
      → String
      → String
      → Json
      → (IdempotencyKey → Exec Session Outcome)
      → Exec Session Outcome
  unfolding fast_path after_fast_path fingerprint
  execute_once c key operation req perform = do
    let request_hash = fingerprint c req
    early ← fast_path key operation request_hash
    after_fast_path key operation request_hash perform early
