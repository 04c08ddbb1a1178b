-- ===== src/Idempotency/Once.antt =====
-- `execute_once` meets its contract, whatever other sessions commit meanwhile.
pub mod FastPath
pub mod Claim
pub mod Recovery
use chekin_interview.Base.{
  String, ◌≡◌, refl, sym, ◌∙◌, ap, ◌⊎◌, inl, inr, Option, none, some, [], ◌∷◌, ◌++◌, Bool-cases,
}
use chekin_interview.Json.{Json}
use chekin_interview.Errors.{
  Exn, ledger, integrity_error, data_error, operational_error, other_exception,
}
use chekin_interview.Models.{IdempotencyKey, add_key, find_key}
use chekin_interview.Schemas.{Codec}
use chekin_interview.Database.{Engine, key_row, Within, Ends, Claims, Committed, IsLost}
use chekin_interview.Database.Exec.{Result, ok, raise, Exec, pure, follow, ◌>>=◌, ◌>>◌}
use chekin_interview.Database.Rules.{Ends-bind, Ends-result, Ends-finally, Ends-imp, Ends-handle}
use chekin_interview.Idempotency.{
  Outcome, fingerprint, replay, new_claim, has_state, replay_existing, fast_path, claim_and_perform,
  replay_winner, handle_failure, recover, after_fast_path, execute_once, pg_unique_violation,
  pg_numeric_out_of_range, pg_lock_not_available, pg_deadlock_detected,
}
use chekin_interview.Idempotency.Contract.{
  Performs, after_race, Seen, Replayed, Fresh, Lost, Failed, Done, Idle, rollback-Idle,
}
use FastPath.{Early, fast_path-Early}
use Claim.{claim_and_perform-Ends}
use Recovery.{recover-Ends}

module _ (e : Engine) where
  open e use {Session, ghost}

  module _ (Q : IdempotencyKey → Outcome → Session → Type 0) (key operation hash : String)
      (perform : IdempotencyKey → Exec Session Outcome) (start : Session) where
    module _ (contract : Performs e Q perform) where
      after_fast_path-Ends :
          (o : Option Outcome) (s : Session)
          → (Early e Q key operation hash perform start) o s
          → s ≡ (fast_path e key operation hash start).1
          → Ends
              (Done e Q key operation hash perform start)
              (Failed e Q key operation hash perform start)
              (after_fast_path e key operation hash perform o s)
      unfolding after_fast_path
      after_fast_path-Ends (some o) s h early = inl h
      after_fast_path-Ends none s h early =
          let work = claim_and_perform e (new_claim key operation hash) perform s in
          let Raced : Exn → Session → Type 0 =
            λ x s'. (Failed e Q key operation hash perform start) x s' × (s' ≡ work.1) in
          Ends-handle (Done e Q key operation hash perform start) Raced
            (Failed e Q key operation hash perform start) (recover e key operation hash) work
            (Ends-imp _ (Done e Q key operation hash perform start) _ Raced work
              (Ends-result (Fresh e Q (new_claim key operation hash) start)
                (Failed e Q key operation hash perform start) work
                ((claim_and_perform-Ends e Q key operation hash perform start) contract s h))
              (λ o s' (k, at). inr k) (λ x s' k. k))
            (λ x s' (k, at). (recover-Ends e Q key operation hash perform start) x s' k (
              ap e.rollback at
              ∙ ap
                  (λ t. e.rollback (claim_and_perform e (new_claim key operation hash) perform t).1)
                  early))

  -- A call of `execute_once` on an idle session returns a stored response and commits nothing, or
  -- returns after one commit of the claim with the work; if it raises it has committed nothing,
  -- but for a lost answer to the commit.
  pub execute_once-Ends :
      (Q : IdempotencyKey → Outcome → Session → Type 0) (c : Codec) (key operation : String)
      (req : Json) (perform : IdempotencyKey → Exec Session Outcome) (s : Session)
      → Performs e Q perform
      → ghost.pending s ≡ []
      → Ends
          (Done e Q key operation (fingerprint c req) perform s)
          (Failed e Q key operation (fingerprint c req) perform s)
          (execute_once e c key operation req perform s)
  unfolding execute_once
  execute_once-Ends Q c key operation req perform s contract idle =
      let hash = fingerprint c req in
      Ends-bind _ (Done e Q key operation hash perform s) (Failed e Q key operation hash perform s)
        (after_fast_path e key operation hash perform) (fast_path e key operation hash s)
        (Ends-imp _ _ _ (Failed e Q key operation hash perform s) (fast_path e key operation hash s)
          (Ends-result (Early e Q key operation hash perform s) (λ x s'. ghost.own s' ≡ ghost.own s)
            (fast_path e key operation hash s)
            (fast_path-Early e Q key operation hash perform s idle))
          (λ o s' k. k) (λ x s' (k, at). inl k))
        (λ o s' (k, at). after_fast_path-Ends Q key operation hash perform s contract o s' k at)
