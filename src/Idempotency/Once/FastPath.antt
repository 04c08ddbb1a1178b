-- ===== src/Idempotency/Once/FastPath.antt =====
-- The first `try` block of `execute_once`: the read that answers a retry.
use chekin_interview.Base.{String, ◌≡◌, refl, sym, ◌∙◌, inl, Option, none, some, []}
use chekin_interview.Models.{IdempotencyKey}
use chekin_interview.Database.{Engine, Ends}
use chekin_interview.Database.Exec.{Result, ok, raise, Exec, pure, follow}
use chekin_interview.Database.Rules.{Ends-bind, Ends-result, Ends-finally, Ends-imp}
use chekin_interview.Idempotency.{Outcome, replay, replay_existing, fast_path}
use chekin_interview.Idempotency.Contract.{Seen, Replayed, Idle, rollback-Idle}

module _ (e : Engine) where
  open e use {Session, ghost}

  module _ (Q : IdempotencyKey → Outcome → Session → Type 0) (key operation hash : String)
      (perform : IdempotencyKey → Exec Session Outcome) (start : Session) where
    -- The fast path ends its transaction, and has read a record if it has an outcome.
    abbrev pub Early : Option Outcome → Session → Type 0
    Early none s' = (Idle e Q key operation hash perform start) s'
    Early (some o) s' = Replayed e key operation hash perform start o s'

    -- What a read of the key's record makes of the fast path.
    abbrev Found : Option Outcome → Session → Type 0
    Found none s' = ghost.own s' ≡ ghost.own start
    Found (some o) s' =
        (ghost.own s' ≡ ghost.own start)
        × ((x : IdempotencyKey) × Seen e key operation hash perform start x
            × (replay x operation hash ≡ ok o))

    replay-Found :
        (x : IdempotencyKey) (v : Result Outcome) (s : Session)
        → replay x operation hash ≡ v
        → Seen e key operation hash perform start x
        → ghost.own s ≡ ghost.own start
        → Ends Found (λ y s'. ghost.own s' ≡ ghost.own start) (follow (λ o. pure (some o)) (v, s))
    replay-Found x (ok o) s answer hk h = (h, (x, hk, answer))
    replay-Found x (raise y) s answer hk h = h

    replay_existing-Found :
        (r : Option IdempotencyKey) (s : Session)
        → ((x : IdempotencyKey) → r ≡ some x → Seen e key operation hash perform start x)
        → ghost.own s ≡ ghost.own start
        → Ends Found (λ x s'. ghost.own s' ≡ ghost.own start) (replay_existing e r operation hash s)
    unfolding replay_existing
    replay_existing-Found none s hk h = h
    replay_existing-Found (some x) s hk h =
        replay-Found x (replay x operation hash) s refl (hk x refl) h

    Found-Early : (o : Option Outcome) (s : Session) → Found o s → Early o (e.rollback s)
    Found-Early none s h = (rollback-Idle e Q key operation hash perform start) s h
    Found-Early (some o) s (h, (x, hk, answer)) = record {
      stored = x;
      seen = hk;
      answer = answer;
      own_kept = (e.rollback_ends s).1 ∙ h;
    }

    pub fast_path-Early :
        ghost.pending start ≡ []
        → Ends Early (λ x s'. ghost.own s' ≡ ghost.own start) (fast_path e key operation hash start)
    unfolding fast_path
    fast_path-Early idle =
        Ends-finally Found Early (λ x s. ghost.own s ≡ ghost.own start)
          (λ x s. ghost.own s ≡ ghost.own start) e.rollback _
          (Ends-bind _ Found (λ x s. ghost.own s ≡ ghost.own start)
            (λ r. replay_existing e r operation hash) (e.get_key key start)
            (Ends-imp _ _ _ (λ x s. ghost.own s ≡ ghost.own start) (e.get_key key start)
              (Ends-result _ _ (e.get_key key start) (e.get_key_reads key start idle)) (λ r s k. k)
              (λ x s k. k.0))
            (λ r s (h, here).
              replay_existing-Found r s
                (λ x p. record { at = s; read = inl here; found = sym h.0 ∙ p }) h.1))
          Found-Early (λ x s h. (e.rollback_ends s).1 ∙ h)
