-- ===== src/Idempotency/Once/Claim.antt =====
-- The second `try` block of `execute_once`: the claim, the work and the one commit.
use chekin_interview.Base.{String, ◌≡◌, refl, sym, ◌∙◌, ap, ◌⊎◌, inl, inr, none, [], ◌∷◌, ◌++◌}
use chekin_interview.Models.{IdempotencyKey, add_key, find_key}
use chekin_interview.Database.{Engine, key_row, Within, Ends, Claims, Committed, IsLost}
use chekin_interview.Database.Exec.{Exec, pure, ◌>>=◌, ◌>>◌}
use chekin_interview.Database.Rules.{Ends-bind, Ends-imp}
use chekin_interview.Idempotency.{Outcome, new_claim, claim_and_perform}
use chekin_interview.Idempotency.Contract.{Performs, Fresh, Failed, Idle}

module _ (e : Engine) where
  open e use {Session, ghost}

  module _ (Q : IdempotencyKey → Outcome → Session → Type 0) (key operation hash : String)
      (perform : IdempotencyKey → Exec Session Outcome) (start : Session) where
    -- The session while the key is claimed and nothing of the work is committed.
    record IsClaimed (s : Session) : Type 0 where
      own_kept : ghost.own s ≡ ghost.own start
      held : ghost.Held s (key_row key)
      unused : find_key key (ghost.committed s).idempotency_keys ≡ none

    Within-IsClaimed : (s t : Session) → IsClaimed s → Within ghost s t → IsClaimed t
    Within-IsClaimed s t h w = record {
      own_kept = w.own_kept ∙ h.own_kept;
      held = w.held_kept (key_row key) h.held;
      unused = sym (w.rows_kept (key_row key) h.held) ∙ h.unused;
    }

    landed-Fresh :
        (o : Outcome) (s s' : Session)
        → IsClaimed s
        → Q (new_claim key operation hash) o s
        → Committed ghost s s'
        → Fresh e Q (new_claim key operation hash) start o s'
    landed-Fresh o s s' h worked landed = record {
      before = s;
      worked = worked;
      landed = landed;
      own_before = h.own_kept;
      claimed = h.held;
      unused = h.unused;
    }

    commit-Ends :
        (o : Outcome) (s : Session)
        → IsClaimed s
        → Q (new_claim key operation hash) o s
        → Ends
            (Fresh e Q (new_claim key operation hash) start)
            (Failed e Q key operation hash perform start)
            ((e.commit >> pure o) s)
    commit-Ends o s h worked =
        Ends-bind (λ u s'. Committed ghost s s') (Fresh e Q (new_claim key operation hash) start)
          (Failed e Q key operation hash perform start) (λ u. pure o) (e.commit s)
          (Ends-imp (λ u s'. Committed ghost s s') (λ u s'. Committed ghost s s')
            (λ x s'. (ghost.own s' ≡ ghost.own s) ⊎ (IsLost x × Committed ghost s s'))
            (Failed e Q key operation hash perform start) (e.commit s) (e.commit_lands s)
            (λ u s' c. c)
            (λ x s'. elim [
              | inl same ↦ inl (same ∙ h.own_kept)
              | inr (is_lost, landed) ↦ inr (record {
                outcome = o;
                at = s';
                fresh = landed-Fresh o s s' h worked landed;
                is_lost = is_lost;
                own_kept = refl;
              })
            ]))
          (λ u s' landed. landed-Fresh o s s' h worked landed)

    -- The claim and the work, up to the one commit.
    module _ (contract : Performs e Q perform) where
      perform-Ends :
          (s : Session)
          → IsClaimed s
          → ghost.pending s ≡ add_key (new_claim key operation hash) ∷ []
          → Ends
              (Fresh e Q (new_claim key operation hash) start)
              (Failed e Q key operation hash perform start)
              ((perform (new_claim key operation hash) >>= λ o. e.commit >> pure o) s)
      perform-Ends s h pending =
          let claim = new_claim key operation hash in
          Ends-bind (λ o s'. Within ghost s s' × Q claim o s') (Fresh e Q claim start)
            (Failed e Q key operation hash perform start) (λ o. e.commit >> pure o)
            (perform claim s)
            (Ends-imp (λ o s'. Within ghost s s' × Q claim o s')
              (λ o s'. Within ghost s s' × Q claim o s') (λ x s'. ghost.own s' ≡ ghost.own s)
              (Failed e Q key operation hash perform start) (perform claim s)
              (contract claim s pending) (λ o s' k. k) (λ x s' same. inl (same ∙ h.own_kept)))
            (λ o s' k. commit-Ends o s' (Within-IsClaimed s s' h k.0) k.1)

      pub claim_and_perform-Ends :
          (s : Session)
          → (Idle e Q key operation hash perform start) s
          → Ends
              (Fresh e Q (new_claim key operation hash) start)
              (Failed e Q key operation hash perform start)
              (claim_and_perform e (new_claim key operation hash) perform s)
      unfolding claim_and_perform
      claim_and_perform-Ends s h =
          let claim = new_claim key operation hash in
          Ends-bind
            (λ u s'.
              Within ghost s s'
              × (ghost.pending s' ≡ ghost.pending s ++ add_key claim ∷ [])
              × Claims ghost s' (add_key claim))
            (Fresh e Q claim start) (Failed e Q key operation hash perform start)
            (λ u. perform claim >>= λ o. e.commit >> pure o) (e.flush (add_key claim ∷ []) s)
            (Ends-imp _ _ _ (Failed e Q key operation hash perform start)
              (e.flush (add_key claim ∷ []) s) (e.flush_writes (add_key claim ∷ []) s)
              (λ u s' k. (k.0, k.1, k.3.0)) (λ x s' same. inl (same ∙ h.1)))
            (λ u s' (within, pending, claimed).
              perform-Ends s'
                (record { own_kept = within.own_kept ∙ h.1; held = claimed.0; unused = claimed.1 })
                (pending ∙ ap (λ w. w ++ add_key claim ∷ []) h.0))
