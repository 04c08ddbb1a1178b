-- ===== src/Transfers/Logged/Honest.antt =====
-- The lines of a transfer are true: `transfer.committed` is logged by the calls that have committed a
-- transfer and whose answer was not lost, and by no others.
use mathlib.Core.Path.{subst}
use native.Mathlib.Decide.{ℕ_discrete}
use chekin_interview.Base.{
  String, ◌≡◌, refl, sym, ◌∙◌, ap, ◌⊎◌, inl, inr, true, false, some, List, [], ◌∷◌, ◌++◌, ==_refl,
  ==_ne,
}
use chekin_interview.Json.{Json, str, member}
use chekin_interview.Errors.{Exn}
use chekin_interview.Schemas.{Codec, TransferRequest, dump_transfer_request, dump_transfer_response}
use chekin_interview.Database.{Engine, Ends}
use chekin_interview.Database.Exec.{Result, ok, raise, follow}
use chekin_interview.Logging.{Event}
use chekin_interview.Idempotency.{Outcome}
use chekin_interview.Idempotency.Stored.{Stored, Raised}
use chekin_interview.Idempotency.Logged.{Noted}
use chekin_interview.Idempotency.Logged.Erased.{forget, execute_once_noted-Erases}
use chekin_interview.Idempotency.Logged.Tells.{Repeated, Told, Complains, Logs}
use chekin_interview.Idempotency.Logged.Tells.Whole.{execute_once_noted-Logs}
use chekin_interview.Transfers.{operation, move_money, execute_transfer}
use chekin_interview.Transfers.Refines.{Executed, execute_transfer-refines, hash, work}
use chekin_interview.Transfers.Logged.{
  transfer_line, announced, note_transfer, note_outcome, execute_transfer_noted,
}
use chekin_interview.Transfers.Logged.Moved.{IsMoved, move_money-IsMoved}

module _ (e : Engine) (c : Codec) (key : String) (req : TransferRequest) (amount_text : String)
    (start : e.Session) where
  open e use {Session, ghost}

  -- What a call has logged, as its answer tells.
  abbrev Accounted : Outcome → List Event → Type 0
  Accounted o lines =
      ((o.replayed ≡ false)
        × (transfer_id : Json) × (member "transfer_id" o.body ≡ some transfer_id)
        × (lines ≡ announced c key req amount_text transfer_id))
      ⊎ Repeated e c operation key start o lines

  note_outcome-Logs :
      (o : Outcome) (n : Noted Session)
      → Told e c IsMoved operation key start o n.events
      → Logs Accounted (Complains operation key) (note_outcome e c key req amount_text o n)
        × (forget (note_outcome e c key req amount_text o n) ≡ (ok o, n.session))
  unfolding note_outcome note_transfer
  note_outcome-Logs o n (inl ((fresh, id, has), told)) =
      rw (fresh, has)
        (
          inl (refl, id, has, ap (λ ls. ls ++ transfer_line c key req amount_text id ∷ []) told),
          refl,
        )
  note_outcome-Logs o n (inr r) =
      let again : o.replayed ≡ true = ap (λ (x : Outcome). x.replayed) r.answer in
      simp (again) (inr r, refl)

  after_noted :
      (r : Result Outcome × Noted Session)
      → Logs (Told e c IsMoved operation key start) (Complains operation key) r
      → Logs Accounted (Complains operation key) (follow (note_outcome e c key req amount_text) r)
        × (forget (follow (note_outcome e c key req amount_text) r) ≡ forget r)
  after_noted (ok o, n) h = note_outcome-Logs o n h
  after_noted (raise x, n) h = (h, refl)

  -- The call from `start`, with nothing logged.
  abbrev pub run : Result Outcome × Noted Session
  run = execute_transfer_noted e c key req amount_text (record { session = start; events = [] })

  -- A call's lines, and that without them it is `execute_transfer`: no KeyError arises after the
  -- commit.
  execute_transfer_noted-Logs :
      Logs Accounted (Complains operation key) run
      × (forget run ≡ execute_transfer e c key req start)
  unfolding execute_transfer_noted execute_transfer
  execute_transfer_noted-Logs = elim (ℕ_discrete req.from_account_id req.to_account_id) [
    | yes same ↦ rw (same, ==_refl req.to_account_id) (inl refl, refl)
    | no distinct ↦ rw (==_ne distinct) (
        let (logs, same) = after_noted _ (
          execute_once_noted-Logs e c IsMoved key operation (dump_transfer_request c req)
            (λ claim. move_money e c claim req) start
            (λ claim. move_money-IsMoved e c req claim)) in
        (
          logs,
          same
              ∙ execute_once_noted-Erases e c key operation (dump_transfer_request c req)
                  (λ claim. move_money e c claim req) (record { session = start; events = [] }),
        ))
  ]

  -- The transfer was executed, and the call has logged its commit and the transfer by its id.
  pub record Announces (o : Outcome) (n : Noted Session) : Type 0 where
    pub executed : Executed e c key req start o n.session
    pub lines :
        n.events ≡ announced c key req amount_text (str (c.uuid_text executed.step.transfer_id))

  -- A stored response was given back, and the call has logged that and nothing else.
  abbrev pub Repeats : Outcome → Noted Session → Type 0
  Repeats o n =
      Stored e key operation (hash e c key req) (work e c key req) start o n.session
      × Repeated e c operation key start o n.events

  -- Nothing was committed or the answer to the commit was lost, and the call has logged nothing or its
  -- failure.
  abbrev pub Regrets : Exn → Noted Session → Type 0
  Regrets x n =
      Raised e (Executed e c key req) start x n.session × Complains operation key x n.events

  joined :
      (r : Result Outcome × Noted Session)
      → Logs Accounted (Complains operation key) r
      → Ends
          (λ o s'.
            Executed e c key req start o s'
            ⊎ Stored e key operation (hash e c key req) (work e c key req) start o s')
          (Raised e (Executed e c key req) start)
          (forget r)
      → Ends (λ o n. Announces o n ⊎ Repeats o n) Regrets r
  unfolding dump_transfer_response
  joined (ok o, n) (inl (fresh, id, has, told)) (inl x) =
      let named : some (str (c.uuid_text x.step.transfer_id)) ≡ some id =
        sym (ap (member "transfer_id") x.tells) ∙ has in
      inl (record { executed = x; lines = told ∙ ap (announced c key req amount_text) (cc named) })
  joined (ok o, n) (inl (fresh, id, has, told)) (inr y) =
      absurd (cc (fresh, ap (λ (x : Outcome). x.replayed) y.answer))
  joined (ok o, n) (inr r) (inl x) =
      absurd (cc (x.not_replayed, ap (λ (x : Outcome). x.replayed) r.answer))
  joined (ok o, n) (inr r) (inr y) = inr (y, r)
  joined (raise x, n) logs ends = (ends, logs)

  -- A call of execute_transfer on a session with nothing pending and nothing logged: if it has
  -- executed the transfer and returns, it has logged idempotency.committed and then transfer.committed
  -- with the id of that transfer, and nothing else; if it gives back a stored response, it has logged
  -- idempotency.replayed, whose raced tells whether its first read had missed the record, and nothing
  -- else; if it raises, it has committed nothing, or the answer to its commit was lost, and it has
  -- logged nothing, or the one line of its failure, which is neither of those.
  pub execute_transfer_noted-IsHonest :
      ghost.pending start ≡ [] → Ends (λ o n. Announces o n ⊎ Repeats o n) Regrets run
  execute_transfer_noted-IsHonest idle =
      let (logs, same) = execute_transfer_noted-Logs in
      joined run logs (
        subst
          (Ends
            (λ o s'.
              Executed e c key req start o s'
              ⊎ Stored e key operation (hash e c key req) (work e c key req) start o s')
            (Raised e (Executed e c key req) start))
          (sym same) (execute_transfer-refines e c key req start idle))
