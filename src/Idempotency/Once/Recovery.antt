-- ===== src/Idempotency/Once/Recovery.antt =====
-- The `except` branches of `execute_once`.
use chekin_interview.Base.{
  String, ◌≡◌, refl, sym, ◌∙◌, ap, inl, inr, Option, none, some, Bool-cases,
}
use chekin_interview.Errors.{
  Exn, ledger, integrity_error, data_error, operational_error, other_exception,
}
use chekin_interview.Models.{IdempotencyKey, find_key}
use chekin_interview.Database.{Engine, Ends, IsLost}
use chekin_interview.Database.Exec.{Result, ok, raise, Exec, ◌>>=◌}
use chekin_interview.Database.Rules.{Ends-bind, Ends-result, Ends-imp}
use chekin_interview.Idempotency.{
  Outcome, replay, has_state, replay_winner, handle_failure, recover, pg_unique_violation,
  pg_numeric_out_of_range, pg_lock_not_available, pg_deadlock_detected,
}
use chekin_interview.Idempotency.Contract.{after_race, Seen, Failed, Done, Idle, rollback-Idle}

module _ (e : Engine) where
  open e use {Session, ghost}

  module _ (Q : IdempotencyKey → Outcome → Session → Type 0) (key operation hash : String)
      (perform : IdempotencyKey → Exec Session Outcome) (start : Session) where
    -- An exception that lost the answer to the commit passes every handler unchanged.
    handle_failure-lost :
        (x : Exn) (s : Session) → IsLost x → handle_failure e key operation hash x s ≡ (raise x, s)
    unfolding handle_failure
    handle_failure-lost (operational_error none) s h = refl
    handle_failure-lost (other_exception y) s h = refl
    handle_failure-lost (operational_error (some y)) s h = elim h [ ]
    handle_failure-lost (ledger y) s h = elim h [ ]
    handle_failure-lost (integrity_error y) s h = elim h [ ]
    handle_failure-lost (data_error y) s h = elim h [ ]

    replay_winner-Ends :
        (r : Option IdempotencyKey) (s : Session)
        → ((x : IdempotencyKey) → r ≡ some x → Seen e key operation hash perform start x)
        → ghost.own s ≡ ghost.own start
        → Ends
            (Done e Q key operation hash perform start)
            (Failed e Q key operation hash perform start)
            (replay_winner e r operation hash s)
    unfolding replay_winner
    replay_winner-Ends none s hk h = inl h
    replay_winner-Ends (some r) s hk h = answer (replay r operation hash) refl
      where
        answer :
            (v : Result Outcome)
            → replay r operation hash ≡ v
            → Ends
                (Done e Q key operation hash perform start)
                (Failed e Q key operation hash perform start)
                (v, s)
        answer (ok o) p = inl (record { stored = r; seen = hk r refl; answer = p; own_kept = h })
        answer (raise y) p = inl h

    winner-Ends :
        (s : Session)
        → (Idle e Q key operation hash perform start) s
        → s ≡ after_race e key operation hash perform start
        → Ends
            (Done e Q key operation hash perform start)
            (Failed e Q key operation hash perform start)
            ((e.get_key key >>= λ winner. replay_winner e winner operation hash) s)
    winner-Ends s h raced =
        Ends-bind _ (Done e Q key operation hash perform start)
          (Failed e Q key operation hash perform start)
          (λ winner. replay_winner e winner operation hash) (e.get_key key s)
          (Ends-imp _
            (λ r s'.
              ((r ≡ find_key key (ghost.committed s').idempotency_keys)
                × (ghost.own s' ≡ ghost.own s))
              × (s' ≡ (e.get_key key s).1))
            _ (Failed e Q key operation hash perform start) (e.get_key key s)
            (Ends-result _ _ (e.get_key key s) (e.get_key_reads key s h.0)) (λ r s' k. k)
            (λ x s' (same, at). inl (same ∙ h.1)))
          (λ r s' (k, at).
            replay_winner-Ends r s'
              (λ x p. record {
                at = s';
                read = inr (at ∙ ap (λ t. (e.get_key key t).1) raced);
                found = sym k.0 ∙ p;
              })
              (k.1 ∙ h.1))

    handle_failure-Ends :
        (x : Exn) (s : Session)
        → (Idle e Q key operation hash perform start) s
        → s ≡ after_race e key operation hash perform start
        → Ends
            (Done e Q key operation hash perform start)
            (Failed e Q key operation hash perform start)
            (handle_failure e key operation hash x s)
    unfolding handle_failure
    handle_failure-Ends (ledger y) s h raced = inl h.1
    handle_failure-Ends (other_exception y) s h raced = inl h.1
    handle_failure-Ends (data_error y) s h raced =
        elim (Bool-cases (has_state (data_error y) pg_numeric_out_of_range)) [
          | inl p ↦ rw p (inl h.1)
          | inr p ↦ rw p (inl h.1)
        ]
    handle_failure-Ends (operational_error y) s h raced =
        elim (Bool-cases (has_state (operational_error y) pg_lock_not_available)) [
          | inl p ↦ rw p (inl h.1)
          | inr p ↦ rw p (elim (Bool-cases (has_state (operational_error y) pg_deadlock_detected)) [
            | inl q ↦ rw q (inl h.1)
            | inr q ↦ rw q (inl h.1)
          ])
        ]
    handle_failure-Ends (integrity_error y) s h raced =
        elim (Bool-cases (has_state (integrity_error y) pg_unique_violation)) [
          | inr p ↦ rw p (inl h.1)
          | inl p ↦ rw p (winner-Ends s h raced)
        ]

    pub recover-Ends :
        (x : Exn) (s : Session)
        → (Failed e Q key operation hash perform start) x s
        → e.rollback s ≡ after_race e key operation hash perform start
        → Ends
            (Done e Q key operation hash perform start)
            (Failed e Q key operation hash perform start)
            (recover e key operation hash x s)
    unfolding recover
    recover-Ends x s (inl same) raced =
        handle_failure-Ends x (e.rollback s)
          ((rollback-Idle e Q key operation hash perform start) s same) raced
    recover-Ends x s (inr lost) raced = rw (handle_failure-lost x (e.rollback s) lost.is_lost) (
        inr (record {
          outcome = lost.outcome;
          at = lost.at;
          fresh = lost.fresh;
          is_lost = lost.is_lost;
          own_kept = (e.rollback_ends s).1 ∙ lost.own_kept;
        }))
