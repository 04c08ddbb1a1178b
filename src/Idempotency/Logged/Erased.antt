-- ===== src/Idempotency/Logged/Erased.antt =====
-- Without its lines of the log, the logged `execute_once` is `execute_once`.
use chekin_interview.Base.{
  String, Bool, true, false, ◌≡◌, refl, ◌∙◌, ap, Option, none, some, Bool-cases, inl, inr,
}
use chekin_interview.Json.{Json}
use chekin_interview.Errors.{
  Exn, ledger, integrity_error, data_error, operational_error, other_exception,
}
use chekin_interview.Models.{IdempotencyKey}
use chekin_interview.Schemas.{Codec}
use chekin_interview.Database.{Engine}
use chekin_interview.Database.Exec.{
  Result, ok, raise, Exec, pure, follow, handle, catch, lift, ◌>>=◌, ◌>>◌,
}
use chekin_interview.Logging.{Event}
use chekin_interview.Idempotency.{
  Outcome, fingerprint, replay, new_claim, has_state, replay_existing, fast_path, claim_and_perform,
  replay_winner, handle_failure, recover, after_fast_path, execute_once, pg_unique_violation,
  pg_numeric_out_of_range, pg_lock_not_available, pg_deadlock_detected,
}
use chekin_interview.Idempotency.Logged.{
  Noted, note, silent, replayed_line, committed_line, replay_noted, replay_existing_noted,
  fast_path_noted, claim_and_perform_noted, replay_winner_noted, handle_failure_noted,
  recover_noted, after_fast_path_noted, execute_once_noted, rolled_back,
}

-- The end of a call, without its lines.
abbrev pub forget : {S A : Type 0} → Result A × Noted S → Result A × S
forget (r, n) = (r, n.session)

-- A logged call that is the other one, but for its lines.
abbrev pub Erases : {S A : Type 0} → Exec (Noted S) A → Exec S A → Type 0
Erases {S} m m' = (n : Noted S) → forget (m n) ≡ m' n.session

module _ {S A B : Type 0} where
  forget-follow :
      (f : A → Exec (Noted S) B) (f' : A → Exec S B) (r : Result A × Noted S)
      → ((a : A) → Erases (f a) (f' a))
      → forget (follow f r) ≡ follow f' (forget r)
  forget-follow f f' (ok a, n) h = h a n
  forget-follow f f' (raise x, n) h = refl

  pub >>=-Erases :
      (m : Exec (Noted S) A) (m' : Exec S A) (f : A → Exec (Noted S) B) (f' : A → Exec S B)
      → Erases m m'
      → ((a : A) → Erases (f a) (f' a))
      → Erases (m >>= f) (m' >>= f')
  >>=-Erases m m' f f' h k n = forget-follow f f' (m n) k ∙ ap (follow f') (h n)

module _ {S A : Type 0} where
  pub silent-Erases : (m : Exec S A) → Erases (silent m) m
  silent-Erases m n = refl

  forget-handle :
      (f : Exn → Exec (Noted S) A) (f' : Exn → Exec S A) (r : Result A × Noted S)
      → ((x : Exn) → Erases (f x) (f' x))
      → forget (handle f r) ≡ handle f' (forget r)
  forget-handle f f' (ok a, n) h = refl
  forget-handle f f' (raise x, n) h = h x n

  catch-Erases :
      (m : Exec (Noted S) A) (m' : Exec S A) (f : Exn → Exec (Noted S) A) (f' : Exn → Exec S A)
      → Erases m m'
      → ((x : Exn) → Erases (f x) (f' x))
      → Erases (catch m f) (catch m' f')
  catch-Erases m m' f f' h k n = forget-handle f f' (m n) k ∙ ap (handle f') (h n)

module _ (e : Engine) (c : Codec) where
  open e use {Session, get_key, rollback}

  noted-Erases :
      (v : Result Outcome) (x : Event)
      → Erases {S = Session} (λ n. follow (λ o. note x >> pure o) (v, n)) (lift v)
  noted-Erases (ok o) x n = refl
  noted-Erases (raise y) x n = refl

  replay_noted-Erases :
      (r : IdempotencyKey) (operation hash : String) (raced : Bool)
      → Erases (replay_noted e c r operation hash raced) (lift (replay r operation hash))
  unfolding replay_noted
  replay_noted-Erases r operation hash raced =
      noted-Erases (replay r operation hash) (replayed_line c r operation raced)

  replay_existing_noted-Erases :
      (r : Option IdempotencyKey) (operation hash : String)
      → Erases (replay_existing_noted e c r operation hash) (replay_existing e r operation hash)
  unfolding replay_existing_noted replay_existing
  replay_existing_noted-Erases none operation hash n = refl
  replay_existing_noted-Erases (some r) operation hash n =
      >>=-Erases (replay_noted e c r operation hash false) (lift (replay r operation hash))
        (λ o. pure (some o)) (λ o. pure (some o)) (replay_noted-Erases r operation hash false)
        (λ o n. refl) n

  fast_path_noted-Erases :
      (key operation hash : String)
      → Erases (fast_path_noted e c key operation hash) (fast_path e key operation hash)
  unfolding fast_path_noted fast_path
  fast_path_noted-Erases key operation hash n =
      ap (λ (r : Result (Option Outcome) × Session). (r.0, rollback r.1))
        (>>=-Erases (silent (get_key key)) (get_key key)
          (λ r. replay_existing_noted e c r operation hash)
          (λ r. replay_existing e r operation hash) (silent-Erases (get_key key))
          (λ r. replay_existing_noted-Erases r operation hash) n)

  claim_and_perform_noted-Erases :
      (claim : IdempotencyKey) (perform : IdempotencyKey → Exec Session Outcome)
      → Erases (claim_and_perform_noted e c claim perform) (claim_and_perform e claim perform)
  unfolding claim_and_perform_noted
  claim_and_perform_noted-Erases claim perform n =
      committed_after (claim_and_perform e claim perform n.session)
    where
      committed_after :
          (r : Result Outcome × Session)
          → forget (
              follow
                (λ o. note (committed_line claim.operation claim.key) >> pure o)
                (r.0, record n { session = r.1 }))
            ≡ r
      committed_after (ok o, s) = refl
      committed_after (raise x, s) = refl

  replay_winner_noted-Erases :
      (key operation hash : String) (r : Option IdempotencyKey)
      → Erases (replay_winner_noted e c key r operation hash) (replay_winner e r operation hash)
  unfolding replay_winner_noted replay_winner
  replay_winner_noted-Erases key operation hash none n = refl
  replay_winner_noted-Erases key operation hash (some r) n =
      replay_noted-Erases r operation hash true n

  handle_failure_noted-Erases :
      (key operation hash : String) (x : Exn)
      → Erases
          (handle_failure_noted e c key operation hash x)
          (handle_failure e key operation hash x)
  unfolding handle_failure_noted handle_failure
  handle_failure_noted-Erases key operation hash (ledger y) n = refl
  handle_failure_noted-Erases key operation hash (other_exception y) n = refl
  handle_failure_noted-Erases key operation hash (data_error y) n =
      elim (Bool-cases (has_state (data_error y) pg_numeric_out_of_range)) [
        | inl p ↦ rw p refl
        | inr p ↦ rw p refl
      ]
  handle_failure_noted-Erases key operation hash (operational_error y) n =
      elim (Bool-cases (has_state (operational_error y) pg_lock_not_available)) [
        | inl p ↦ rw p refl
        | inr p ↦ rw p (elim (Bool-cases (has_state (operational_error y) pg_deadlock_detected)) [
          | inl q ↦ rw q refl
          | inr q ↦ rw q refl
        ])
      ]
  handle_failure_noted-Erases key operation hash (integrity_error y) n =
      elim (Bool-cases (has_state (integrity_error y) pg_unique_violation)) [
        | inr p ↦ rw p refl
        | inl p ↦ rw p (
            >>=-Erases (silent (get_key key)) (get_key key)
              (λ r. replay_winner_noted e c key r operation hash)
              (λ r. replay_winner e r operation hash) (silent-Erases (get_key key))
              (λ r. replay_winner_noted-Erases key operation hash r) n)
      ]

  after_fast_path_noted-Erases :
      (key operation hash : String) (perform : IdempotencyKey → Exec Session Outcome)
      (o : Option Outcome)
      → Erases
          (after_fast_path_noted e c key operation hash perform o)
          (after_fast_path e key operation hash perform o)
  unfolding after_fast_path_noted after_fast_path recover_noted recover
  after_fast_path_noted-Erases key operation hash perform (some o) n = refl
  after_fast_path_noted-Erases key operation hash perform none n =
      let claim = new_claim key operation hash in
      catch-Erases (claim_and_perform_noted e c claim perform) (claim_and_perform e claim perform)
        (recover_noted e c key operation hash) (recover e key operation hash)
        (claim_and_perform_noted-Erases claim perform)
        (λ x n. handle_failure_noted-Erases key operation hash x (rolled_back e c n)) n

  -- Without its lines, a call returns or raises what `execute_once` does, and leaves the session that
  -- it leaves.
  pub execute_once_noted-Erases :
      (key operation : String) (req : Json) (perform : IdempotencyKey → Exec Session Outcome)
      → Erases
          (execute_once_noted e c key operation req perform)
          (execute_once e c key operation req perform)
  unfolding execute_once_noted execute_once
  execute_once_noted-Erases key operation req perform =
      let hash = fingerprint c req in
      >>=-Erases (fast_path_noted e c key operation hash) (fast_path e key operation hash)
        (after_fast_path_noted e c key operation hash perform)
        (after_fast_path e key operation hash perform) (fast_path_noted-Erases key operation hash)
        (after_fast_path_noted-Erases key operation hash perform)
