-- ===== src/Idempotency/Logged/Tells.antt =====
-- What `execute_once` logs: one line for an answer, and at most one for a failure.
pub mod FastPath
pub mod Recovery
pub mod Whole
use chekin_interview.Base.{
  String, Bool, true, false, ◌≡◌, refl, sym, ◌∙◌, ap, ◌⊎◌, inl, inr, Option, none, some, List, [],
  ◌∷◌, ◌++◌, Bool-cases, Option-cases,
}
use chekin_interview.Json.{Json}
use chekin_interview.Errors.{
  Exn, ledger, integrity_error, data_error, operational_error, other_exception,
}
use chekin_interview.Models.{IdempotencyKey, add_key}
use chekin_interview.Schemas.{Codec}
use chekin_interview.Database.{Engine, Ends}
use chekin_interview.Database.Exec.{Result, ok, raise, Exec, pure, follow, handle, ◌>>=◌, ◌>>◌}
use chekin_interview.Database.Rules.{Ends-bind, Ends-handle, Ends-finally}
use chekin_interview.Logging.{Event}
use chekin_interview.Idempotency.{
  Outcome, fingerprint, replay, new_claim, has_state, claim_and_perform, vanished, out_of_range,
  busy, contention, pg_unique_violation, pg_numeric_out_of_range, pg_lock_not_available,
  pg_deadlock_detected,
}
use chekin_interview.Idempotency.Replay.{stored_response, replay-eq-ok}
use chekin_interview.Idempotency.Logged.{
  Noted, note, silent, replay_noted, replay_existing_noted, fast_path_noted,
  claim_and_perform_noted, replay_winner_noted, handle_failure_noted, recover_noted,
  after_fast_path_noted, execute_once_noted, rolled_back, replayed_line, committed_line,
  vanished_line, out_of_range_line, lock_timeout_line, deadlock_line,
}

-- The failures that `execute_once` logs, each with its one line.
pub data Complaint (operation key : String) : Exn → Event → Type 0 where
  record_vanished : Complaint operation key vanished (vanished_line operation key)
  value_out_of_range : Complaint operation key out_of_range (out_of_range_line operation key)
  lock_timeout : Complaint operation key busy (lock_timeout_line operation key)
  deadlock : Complaint operation key contention (deadlock_line operation key)

-- An answer that was given back from a record, with its line. The record is that of the first read,
-- which `start` begins, or that read found none and a later one this record; `raced` tells which.
pub record Repeated (e : Engine) (c : Codec) (operation key : String) (start : e.Session)
    (o : Outcome) (lines : List Event) : Type 0 where
  pub stored : IdempotencyKey
  pub raced : Bool
  pub read :
      ((raced ≡ false) × ((e.get_key key start).0 ≡ ok (some stored)))
      ⊎ ((raced ≡ true)
          × ((e.get_key key start).0 ≡ ok none)
          × (later : e.Session) × ((e.get_key key later).0 ≡ ok (some stored)))
  pub answer : o ≡ stored_response stored
  pub line : lines ≡ replayed_line c stored operation raced ∷ []

module _ (e : Engine) (c : Codec) (P : Outcome → Type 0) (operation key : String)
    (start : e.Session) where
  -- The lines of a call that returned: the commit's, for an outcome of the work, or the replay's.
  abbrev pub Told : Outcome → List Event → Type 0
  Told o lines =
      (P o × (lines ≡ committed_line operation key ∷ [])) ⊎ Repeated e c operation key start o lines

-- The lines of a call that raised.
abbrev pub Complains : String → String → Exn → List Event → Type 0
Complains operation key x lines =
    (lines ≡ []) ⊎ ((line : Event) × Complaint operation key x line × (lines ≡ line ∷ []))

-- A call that began with nothing logged.
abbrev pub Logs :
    {S A : Type 0}
    → (A → List Event → Type 0)
    → (Exn → List Event → Type 0)
    → Result A × Noted S
    → Type 0
Logs Q E r = Ends (λ a n. Q a n.events) (λ x n. E x n.events) r
