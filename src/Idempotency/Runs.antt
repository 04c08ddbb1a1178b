-- ===== src/Idempotency/Runs.antt =====
-- `execute_once`, statement by statement: what each run of the session's calls leads to.
use chekin_interview.Base.{String, ◌≡◌, refl, none, some, [], ◌∷◌}
use chekin_interview.Json.{Json}
use chekin_interview.Errors.{LedgerError, ledger, integrity_error}
use chekin_interview.Schemas.{Codec}
use chekin_interview.Models.{IdempotencyKey, add_key}
use chekin_interview.Database.{Engine}
use chekin_interview.Database.Exec.{Result, ok, raise, Exec, pure, follow}
use chekin_interview.Idempotency.{
  Outcome, fingerprint, replay, new_claim, execute_once, replay_existing, claim_and_perform,
  after_fast_path, recover, replay_winner, handle_failure, pg_unique_violation,
}

module _ (e : Engine) (c : Codec) (key operation : String) (req : Json)
    (perform : IdempotencyKey → Exec (e.Session) Outcome) where
  open e use {Session}

  abbrev hash : String
  hash = fingerprint c req

  -- The outcome of the fast path, returned or raised, is the outcome of the call.
  answered :
      (v : Result Outcome) (s : Session)
      → follow (after_fast_path e key operation hash perform) (
        (follow (λ o. pure (some o)) (v, s)).0,
        e.rollback (follow (λ (o : Outcome). pure (some o)) (v, s)).1,
      )
        ≡ (v, e.rollback s)
  unfolding after_fast_path
  answered (ok o) s = refl
  answered (raise x) s = refl

  -- If the fast path finds the key, the stored record answers: `perform` is not called, and nothing
  -- is written.
  pub execute_once-found :
      (s s₁ : Session) (r : IdempotencyKey)
      → e.get_key key s ≡ (ok (some r), s₁)
      → execute_once e c key operation req perform s ≡ (replay r operation hash, e.rollback s₁)
  unfolding execute_once replay_existing
  execute_once-found s s₁ r h = rw h (answered (replay r operation hash) s₁)

  -- If the key is free, and every statement succeeds, the call returns what `perform` returned,
  -- after the commit.
  pub execute_once-performed :
      (s s₁ s₂ s₃ s₄ : Session) (o : Outcome)
      → e.get_key key s ≡ (ok none, s₁)
      → e.flush (add_key (new_claim key operation hash) ∷ []) (e.rollback s₁) ≡ (ok tt, s₂)
      → perform (new_claim key operation hash) s₂ ≡ (ok o, s₃)
      → e.commit s₃ ≡ (ok tt, s₄)
      → execute_once e c key operation req perform s ≡ (ok o, s₄)
  unfolding execute_once replay_existing claim_and_perform
  execute_once-performed s s₁ s₂ s₃ s₄ o h₁ h₂ h₃ h₄ = rw h₁ (rw h₂ (rw h₃ (rw h₄ refl)))

  -- If another request inserts the key first, so that the claim is a duplicate, the record that it
  -- has committed answers: `perform` is not called.
  pub execute_once-raced :
      (s s₁ s₂ s₃ : Session) (r : IdempotencyKey)
      → e.get_key key s ≡ (ok none, s₁)
      → e.flush (add_key (new_claim key operation hash) ∷ []) (e.rollback s₁)
        ≡ (raise (integrity_error (some pg_unique_violation)), s₂)
      → e.get_key key (e.rollback s₂) ≡ (ok (some r), s₃)
      → execute_once e c key operation req perform s ≡ (replay r operation hash, s₃)
  unfolding execute_once replay_existing claim_and_perform recover handle_failure replay_winner
  execute_once-raced s s₁ s₂ s₃ r h₁ h₂ h₃ = rw h₁ (rw h₂ (rw h₃ refl))

  -- If the work raises a domain error, the claim is rolled back and the error leaves as it is.
  pub execute_once-refused :
      (s s₁ s₂ s₃ : Session) (x : LedgerError)
      → e.get_key key s ≡ (ok none, s₁)
      → e.flush (add_key (new_claim key operation hash) ∷ []) (e.rollback s₁) ≡ (ok tt, s₂)
      → perform (new_claim key operation hash) s₂ ≡ (raise (ledger x), s₃)
      → execute_once e c key operation req perform s ≡ (raise (ledger x), e.rollback s₃)
  unfolding execute_once replay_existing claim_and_perform recover handle_failure
  execute_once-refused s s₁ s₂ s₃ x h₁ h₂ h₃ = rw h₁ (rw h₂ (rw h₃ refl))
