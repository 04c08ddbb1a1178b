-- ===== src/Transfers/Moves/Between.antt =====
-- The part of `_move_money` after the accounts are found.
use chekin_interview.Base.{
  ℕ, ◌≡◌, ◌≢◌, refl, sym, ◌∙◌, ap, inl, inr, true, [], ◌∷◌, ◌++◌, Bool-cases,
}
use chekin_interview.Base.Int.{◌≤ℤ◌, ltb_ℤ, le_of_ltb_false}
use chekin_interview.Errors.{Exn}
use chekin_interview.Models.{Account, IdempotencyKey, add_key}
use chekin_interview.Models.Constraints.{admits}
use chekin_interview.Schemas.{Codec, TransferRequest}
use chekin_interview.Database.{Engine, Within, Ends, All}
use chekin_interview.Database.Exec.{pure, always, ◌>>=◌, ◌>>◌}
use chekin_interview.Database.Rules.{Ends-bind, Ends-imp, Within-trans}
use chekin_interview.Idempotency.{Outcome}
use chekin_interview.Transfers.{move_between}
use chekin_interview.Transfers.Moves.{Holds, Holds-Within, created, changes, Moved}

module _ (e : Engine) (c : Codec) where
  open e use {Session, ghost}

  module _ (req : TransferRequest) (claim : IdempotencyKey) (start : Session) where
    -- What a return and a raise of the work promise.
    abbrev pub Worked : Outcome → Session → Type 0
    Worked o s = Within ghost start s × Moved e c req claim o s

    abbrev pub Stopped : Exn → Session → Type 0
    Stopped x s = ghost.own s ≡ ghost.own start

    module _ (source destination : Account) where
      -- The state of the transaction while nothing of the transfer is written.
      pub record IsReady (s : Session) : Type 0 where
        pub within : Within ghost start s
        pub claimed : ghost.pending s ≡ add_key claim ∷ []
        pub holds_source : Holds e c req.from_account_id source s
        pub holds_destination : Holds e c req.to_account_id destination s

      Within-IsReady :
          (s t : Session)
          → IsReady s
          → Within ghost s t
          → ghost.pending t ≡ ghost.pending s
          → IsReady t
      Within-IsReady s t h w same = record {
        within = Within-trans ghost start s t h.within w;
        claimed = same ∙ h.claimed;
        holds_source = Holds-Within e c req.from_account_id source s t w h.holds_source;
        holds_destination =
            Holds-Within e c req.to_account_id destination s t w h.holds_destination;
      }

      IsReady-begun : (s : Session) → IsReady s → ghost.pending s ≢ []
      IsReady-begun s h empty = cc (h.claimed, empty)

      module _ (covered : req.amount ≤ℤ source.balance) where
        flush-Worked :
            (transfer_id debit_id credit_id at : ℕ) (s : Session)
            → IsReady s
            → at ≡ ghost.time s
            → Ends Worked Stopped (
                (e.flush
                      (changes e c req claim source destination transfer_id debit_id credit_id at)
                    >> pure (created e c req source destination transfer_id at))
                  s)
        flush-Worked transfer_id debit_id credit_id at s h same =
            let ws = changes e c req claim source destination transfer_id debit_id credit_id at in
            Ends-bind
              (λ u t.
                Within ghost s t
                × (ghost.pending t ≡ ghost.pending s ++ ws)
                × All (λ w. admits w ≡ true) ws)
              Worked Stopped (λ u. pure (created e c req source destination transfer_id at))
              (e.flush ws s)
              (Ends-imp _ _ _ Stopped (e.flush ws s) (e.flush_writes ws s)
                (λ u t k. (k.0, k.1, k.2)) (λ x t k. k ∙ h.within.own_kept))
              (λ u t (w, pending, admitted). (
                Within-trans ghost start s t h.within w,
                record {
                  source = source;
                  destination = destination;
                  transfer_id = transfer_id;
                  debit_id = debit_id;
                  credit_id = credit_id;
                  created_at = at;
                  at_time = same ∙ sym (w.time_kept (IsReady-begun s h));
                  holds_source = Holds-Within e c req.from_account_id source s t w h.holds_source;
                  holds_destination =
                      Holds-Within e c req.to_account_id destination s t w h.holds_destination;
                  covered = covered;
                  answer = refl;
                  writes = pending ∙ ap (λ l. l ++ ws) h.claimed;
                  admitted = admitted;
                },
              ))

        ids-Worked :
            (transfer_id at : ℕ) (s : Session)
            → IsReady s
            → at ≡ ghost.time s
            → Ends Worked Stopped (
                (do
                  debit_id ← always e.uuid4
                  credit_id ← always e.uuid4
                  e.flush
                      (changes e c req claim source destination transfer_id debit_id credit_id at)
                  pure (created e c req source destination transfer_id at))
                  s)
        ids-Worked transfer_id at s h same =
            let (debit_id, t) = e.uuid4 s in
            let (w, pending) = e.uuid4_local s in
            let (credit_id, u) = e.uuid4 t in
            let (w', pending') = e.uuid4_local t in
            let ready = Within-IsReady t u (Within-IsReady s t h w pending) w' pending' in
            flush-Worked transfer_id debit_id credit_id at u ready (
              same
              ∙ sym (w.time_kept (IsReady-begun s h))
              ∙ sym (w'.time_kept (w.begun_kept (IsReady-begun s h))))

        now-Worked :
            (transfer_id : ℕ) (s : Session)
            → IsReady s
            → Ends Worked Stopped (
                (do
                  at ← e.now
                  debit_id ← always e.uuid4
                  credit_id ← always e.uuid4
                  e.flush
                      (changes e c req claim source destination transfer_id debit_id credit_id at)
                  pure (created e c req source destination transfer_id at))
                  s)
        now-Worked transfer_id s h =
            Ends-bind
              (λ at t. Within ghost s t × (ghost.pending t ≡ ghost.pending s) × (at ≡ ghost.time t))
              Worked Stopped
              (λ at. do
                debit_id ← always e.uuid4
                credit_id ← always e.uuid4
                e.flush (changes e c req claim source destination transfer_id debit_id credit_id at)
                pure (created e c req source destination transfer_id at))
              (e.now s)
              (Ends-imp _ _ _ Stopped (e.now s) (e.now_reads s) (λ at t k. k)
                (λ x t k. k ∙ h.within.own_kept))
              (λ at t (w, pending, same).
                ids-Worked transfer_id at t (Within-IsReady s t h w pending) same)

      pub move_between-Worked :
          (s : Session)
          → IsReady s
          → Ends Worked Stopped (move_between e c claim req source destination s)
      unfolding move_between
      move_between-Worked s h = elim (Bool-cases (ltb_ℤ source.balance req.amount)) [
        | inl short ↦ rw short h.within.own_kept
        | inr enough ↦ rw enough (
            now-Worked (le_of_ltb_false source.balance req.amount enough) (e.uuid4 s).0
              (e.uuid4 s).1
              (Within-IsReady s (e.uuid4 s).1 h (e.uuid4_local s).0 (e.uuid4_local s).1))
      ]
