-- ===== src/Idempotency/Contract.antt =====
-- The contract of `execute_once`: what its callers' work must promise, and how a call can end.
use chekin_interview.Base.{String, ◌≡◌, ◌∙◌, ◌⊎◌, none, some, [], ◌∷◌}
use chekin_interview.Errors.{Exn}
use chekin_interview.Models.{IdempotencyKey, add_key, find_key}
use chekin_interview.Database.{Engine, key_row, Within, Ends, Committed, IsLost}
use chekin_interview.Database.Exec.{ok, Exec}
use chekin_interview.Idempotency.{Outcome, replay, new_claim, fast_path, claim_and_perform}

module _ (e : Engine) where
  open e use {Session, ghost}

  -- The work of a caller, in the transaction that has just claimed a key: a return has made `Q`
  -- true, and neither a return nor a raise has committed anything.
  abbrev pub Performs :
      (IdempotencyKey → Outcome → Session → Type 0)
      → (IdempotencyKey → Exec Session Outcome)
      → Type 0
  Performs Q perform =
      (claim : IdempotencyKey) (s : Session)
      → ghost.pending s ≡ add_key claim ∷ []
      → Ends (λ o s'. Within ghost s s' × Q claim o s') (λ x s'. ghost.own s' ≡ ghost.own s)
          (perform claim s)

  -- The session in which the losing request reads the winner's record: after the fast path, and
  -- after its own claim was rolled back.
  abbrev pub after_race :
      String → String → String → (IdempotencyKey → Exec Session Outcome) → Session → Session
  after_race key operation hash perform start =
      e.rollback
        (claim_and_perform e (new_claim key operation hash) perform
          (fast_path e key operation hash start).1).1

  -- A record that one of the two reads of a call that began in `start` has found committed. `at` is
  -- the session after the read.
  pub record Seen (key operation hash : String) (perform : IdempotencyKey → Exec Session Outcome)
      (start : Session) (x : IdempotencyKey) : Type 0 where
    pub at : Session
    pub read :
        (at ≡ (e.get_key key start).1)
        ⊎ (at ≡ (e.get_key key (after_race key operation hash perform start)).1)
    pub found : find_key key (ghost.committed at).idempotency_keys ≡ some x

  -- A stored response was given back, and this call committed nothing.
  pub record Replayed (key operation hash : String)
      (perform : IdempotencyKey → Exec Session Outcome) (s : Session) (o : Outcome) (s' : Session)
      : Type 0 where
    pub stored : IdempotencyKey
    pub seen : Seen key operation hash perform s stored
    pub answer : replay stored operation hash ≡ ok o
    pub own_kept : ghost.own s' ≡ ghost.own s

  -- The work was done and is committed: `before` is the session just before its one commit.
  pub record Fresh (Q : IdempotencyKey → Outcome → Session → Type 0) (claim : IdempotencyKey)
      (s : Session) (o : Outcome) (s' : Session) : Type 0 where
    pub before : Session
    pub worked : Q claim o before
    pub landed : Committed ghost before s'
    pub own_before : ghost.own before ≡ ghost.own s
    pub claimed : ghost.Held before (key_row claim.key)
    pub unused : find_key claim.key (ghost.committed before).idempotency_keys ≡ none

  -- The answer to the commit was lost, and the work is committed: `at` is the session just after its
  -- one commit.
  pub record Lost (Q : IdempotencyKey → Outcome → Session → Type 0) (claim : IdempotencyKey)
      (s : Session) (x : Exn) (s' : Session) : Type 0 where
    pub outcome : Outcome
    pub at : Session
    pub fresh : Fresh Q claim s outcome at
    pub is_lost : IsLost x
    pub own_kept : ghost.own s' ≡ ghost.own at

  module _ (Q : IdempotencyKey → Outcome → Session → Type 0) (key operation hash : String)
      (perform : IdempotencyKey → Exec Session Outcome) (start : Session) where
    abbrev pub Failed : Exn → Session → Type 0
    Failed x s' =
        (ghost.own s' ≡ ghost.own start) ⊎ Lost Q (new_claim key operation hash) start x s'

    abbrev pub Done : Outcome → Session → Type 0
    Done o s' =
        Replayed key operation hash perform start o s'
        ⊎ Fresh Q (new_claim key operation hash) start o s'

    -- The session between two transactions, which has committed nothing.
    abbrev pub Idle : Session → Type 0
    Idle s = (ghost.pending s ≡ []) × (ghost.own s ≡ ghost.own start)

    pub rollback-Idle : (s : Session) → ghost.own s ≡ ghost.own start → Idle (e.rollback s)
    rollback-Idle s h = ((e.rollback_ends s).0, (e.rollback_ends s).1 ∙ h)
