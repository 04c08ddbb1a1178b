-- ===== src/Idempotency/Logged/Tells/Recovery.antt =====
-- The lines of the work and of its failures.
use chekin_interview.Base.{
  String, true, ◌≡◌, refl, ap, inl, inr, Option, none, some, [], ◌∷◌, ◌++◌, Bool-cases,
}
use chekin_interview.Errors.{
  Exn, ledger, integrity_error, data_error, operational_error, other_exception,
}
use chekin_interview.Models.{IdempotencyKey}
use chekin_interview.Schemas.{Codec}
use chekin_interview.Database.{Engine, Ends}
use chekin_interview.Database.Exec.{Result, ok, raise, Exec, pure, follow, ◌>>◌}
use chekin_interview.Database.Rules.{Ends-handle}
use chekin_interview.Idempotency.{
  Outcome, new_claim, has_state, claim_and_perform, pg_unique_violation, pg_numeric_out_of_range,
  pg_lock_not_available, pg_deadlock_detected,
}
use chekin_interview.Idempotency.Logged.{
  Noted, note, claim_and_perform_noted, replay_winner_noted, handle_failure_noted, recover_noted,
  after_fast_path_noted, rolled_back, committed_line, vanished_line, out_of_range_line,
  lock_timeout_line, deadlock_line,
}
use chekin_interview.Idempotency.Logged.Tells.{
  record_vanished, value_out_of_range, lock_timeout, deadlock, Told, Complains, Logs,
}
use chekin_interview.Idempotency.Logged.Tells.FastPath.{Quiet, Early, replay_noted-Logs, after_read}

module _ (e : Engine) (c : Codec) (P : Outcome → Type 0) (key operation hash : String)
    (start : e.Session) where
  open e use {Session, get_key, rollback}

  claim_and_perform_noted-Logs :
      (perform : IdempotencyKey → Exec Session Outcome) (n : Noted Session)
      → n.events ≡ []
      → Ends
          (λ o s. P o)
          (λ x s. Unit {0})
          (claim_and_perform e (new_claim key operation hash) perform n.session)
      → Logs
          (Told e c P operation key start)
          (λ x lines. lines ≡ [])
          (claim_and_perform_noted e c (new_claim key operation hash) perform n)
  unfolding claim_and_perform_noted
  claim_and_perform_noted-Logs perform n new =
      from (claim_and_perform e (new_claim key operation hash) perform n.session)
    where
      from :
          (r : Result Outcome × Session)
          → Ends (λ o s. P o) (λ x s. Unit {0}) r
          → Logs
              (Told e c P operation key start)
              (λ x lines. lines ≡ [])
              (follow
                (λ o. note (committed_line operation key) >> pure o)
                (r.0, record n { session = r.1 }))
      from (ok o, s) h = inl (h, ap (λ ls. ls ++ committed_line operation key ∷ []) new)
      from (raise x, s) h = new

  replay_winner_noted-Logs :
      (r : Option IdempotencyKey) (n : Noted Session)
      → (later : Session) × ((get_key key later).0 ≡ ok r)
      → (get_key key start).0 ≡ ok none
      → n.events ≡ []
      → Quiet e c P key operation hash start (replay_winner_noted e c key r operation hash n)
  unfolding replay_winner_noted
  replay_winner_noted-Logs none n read missed new = inr (
    vanished_line operation key,
    record_vanished,
    ap (λ ls. ls ++ vanished_line operation key ∷ []) new,
  )
  replay_winner_noted-Logs (some r) n (later, read) missed new =
      replay_noted-Logs e c P key operation hash start r true n (inr (refl, missed, later, read))
        new

  handle_failure_noted-Logs :
      (x : Exn) (n : Noted Session)
      → (get_key key start).0 ≡ ok none
      → n.events ≡ []
      → Quiet e c P key operation hash start (handle_failure_noted e c key operation hash x n)
  unfolding handle_failure_noted
  handle_failure_noted-Logs (ledger y) n missed new = inl new
  handle_failure_noted-Logs (other_exception y) n missed new = inl new
  handle_failure_noted-Logs (data_error y) n missed new =
      elim (Bool-cases (has_state (data_error y) pg_numeric_out_of_range)) [
        | inl p ↦ rw p (
            inr (
              out_of_range_line operation key,
              value_out_of_range,
              ap (λ ls. ls ++ out_of_range_line operation key ∷ []) new,
            ))
        | inr p ↦ rw p (inl new)
      ]
  handle_failure_noted-Logs (operational_error y) n missed new =
      elim (Bool-cases (has_state (operational_error y) pg_lock_not_available)) [
        | inl p ↦ rw p (
            inr (
              lock_timeout_line operation key,
              lock_timeout,
              ap (λ ls. ls ++ lock_timeout_line operation key ∷ []) new,
            ))
        | inr p ↦ rw p (elim (Bool-cases (has_state (operational_error y) pg_deadlock_detected)) [
          | inl q ↦ rw q (
              inr (
                deadlock_line operation key,
                deadlock,
                ap (λ ls. ls ++ deadlock_line operation key ∷ []) new,
              ))
          | inr q ↦ rw q (inl new)
        ])
      ]
  handle_failure_noted-Logs (integrity_error y) n missed new =
      elim (Bool-cases (has_state (integrity_error y) pg_unique_violation)) [
        | inr p ↦ rw p (inl new)
        | inl p ↦ rw p (
            after_read e c P key operation hash start (Told e c P operation key start)
              (λ r. replay_winner_noted e c key r operation hash) n new
              (λ r m read. replay_winner_noted-Logs r m (n.session, read) missed))
      ]

  pub after_fast_path_noted-Logs :
      (perform : IdempotencyKey → Exec Session Outcome) (o : Option Outcome) (n : Noted Session)
      → Early e c P key operation hash start o n.events
      → ((s : Session)
          → Ends
              (λ a t. P a)
              (λ x t. Unit {0})
              (claim_and_perform e (new_claim key operation hash) perform s))
      → Quiet e c P key operation hash start
          (after_fast_path_noted e c key operation hash perform o n)
  unfolding after_fast_path_noted recover_noted
  after_fast_path_noted-Logs perform (some o) n h works = h
  after_fast_path_noted-Logs perform none n h works =
      Ends-handle (λ o m. Told e c P operation key start o m.events) (λ x m. m.events ≡ [])
        (λ x m. Complains operation key x m.events) (recover_noted e c key operation hash)
        (claim_and_perform_noted e c (new_claim key operation hash) perform n)
        (claim_and_perform_noted-Logs perform n h.0 (works n.session))
        (λ x m k. handle_failure_noted-Logs x (rolled_back e c m) h.1 k)
