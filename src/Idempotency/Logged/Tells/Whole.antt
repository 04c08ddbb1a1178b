-- ===== src/Idempotency/Logged/Tells/Whole.antt =====
-- The lines of a whole call of `execute_once`.
use chekin_interview.Base.{String, refl, [], ◌∷◌}
use chekin_interview.Json.{Json}
use chekin_interview.Models.{IdempotencyKey, add_key}
use chekin_interview.Schemas.{Codec}
use chekin_interview.Database.{Engine, Ends}
use chekin_interview.Database.Exec.{Result, ok, raise, Exec, pure, ◌>>=◌, ◌>>◌}
use chekin_interview.Database.Rules.{Ends-bind}
use chekin_interview.Idempotency.{Outcome, fingerprint, new_claim, claim_and_perform}
use chekin_interview.Idempotency.Logged.{fast_path_noted, after_fast_path_noted, execute_once_noted}
use chekin_interview.Idempotency.Logged.Tells.{Told, Complains, Logs}
use chekin_interview.Idempotency.Logged.Tells.FastPath.{Early, fast_path_noted-Logs}
use chekin_interview.Idempotency.Logged.Tells.Recovery.{after_fast_path_noted-Logs}

Ends-any : {S A : Type 0} (r : Result A × S) → Ends (λ a s. Unit {0}) (λ x s. Unit {0}) r
Ends-any (ok a, s) = tt
Ends-any (raise x, s) = tt

module _ (e : Engine) (c : Codec) (P : Outcome → Type 0) where
  open e use {Session, flush, commit}

  claim_and_perform-returns :
      (claim : IdempotencyKey) (perform : IdempotencyKey → Exec Session Outcome) (s : Session)
      → ((t : Session) → Ends (λ o u. P o) (λ x u. Unit {0}) (perform claim t))
      → Ends (λ o u. P o) (λ x u. Unit {0}) (claim_and_perform e claim perform s)
  unfolding claim_and_perform
  claim_and_perform-returns claim perform s works =
      Ends-bind (λ u t. Unit {0}) (λ o t. P o) (λ x t. Unit {0})
        (λ u. perform claim >>= λ o. commit >> pure o) (flush (add_key claim ∷ []) s)
        (Ends-any (flush (add_key claim ∷ []) s))
        (λ u t k.
          Ends-bind (λ o t. P o) (λ o t. P o) (λ x t. Unit {0}) (λ o. commit >> pure o)
            (perform claim t) (works t)
            (λ o v h.
              Ends-bind (λ u t. Unit {0}) (λ o t. P o) (λ x t. Unit {0}) (λ u. pure o) (commit v)
                (Ends-any (commit v)) (λ u w k. h)))

  -- A call of `execute_once` that returns has logged one line: that of the commit, if the outcome is
  -- one of the work, or that of a replay. A call that raises has logged nothing, or the one line of
  -- its failure.
  pub execute_once_noted-Logs :
      (key operation : String) (req : Json) (perform : IdempotencyKey → Exec Session Outcome)
      (s : Session)
      → ((claim : IdempotencyKey) (t : Session)
          → Ends (λ o u. P o) (λ x u. Unit {0}) (perform claim t))
      → Logs
          (Told e c P operation key s)
          (Complains operation key)
          (execute_once_noted e c key operation req perform (record { session = s; events = [] }))
  unfolding execute_once_noted
  execute_once_noted-Logs key operation req perform s works =
      let hash = fingerprint c req in
      Ends-bind (λ o m. Early e c P key operation hash s o m.events)
        (λ o m. Told e c P operation key s o m.events) (λ x m. Complains operation key x m.events)
        (after_fast_path_noted e c key operation hash perform)
        (fast_path_noted e c key operation hash (record { session = s; events = [] }))
        (fast_path_noted-Logs e c P key operation hash s (record { session = s; events = [] }) refl
          refl)
        (λ o m h. after_fast_path_noted-Logs e c P key operation hash s perform o m h (λ t.
          claim_and_perform-returns (new_claim key operation hash) perform t
            (works (new_claim key operation hash))))
