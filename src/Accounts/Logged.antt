-- ===== src/Accounts/Logged.antt =====
-- `create_account` of app/services/accounts.py with its lines of the log, which are those of
-- `execute_once`.
use mathlib.Core.Path.{subst}
use chekin_interview.Base.{String, ◌≡◌, refl, sym, ap, ◌⊎◌, inl, inr, false, [], ◌∷◌}
use chekin_interview.Models.{IdempotencyKey, add_account, set_response}
use chekin_interview.Schemas.{
  Codec, CreateAccountRequest, dump_create_request, dump_account_response,
}
use chekin_interview.Database.{Engine, Ends}
use chekin_interview.Database.Exec.{Result, ok, raise, Exec, pure, ◌>>=◌, ◌>>◌}
use chekin_interview.Errors.{Exn}
use chekin_interview.Idempotency.{Outcome}
use chekin_interview.Idempotency.Stored.{Stored, Raised}
use chekin_interview.Idempotency.Logged.{Noted, committed_line, execute_once_noted}
use chekin_interview.Idempotency.Logged.Erased.{forget, execute_once_noted-Erases}
use chekin_interview.Idempotency.Logged.Gives.{Gives, follow-Gives}
use chekin_interview.Idempotency.Logged.Tells.{Repeated, Told, Complains, Logs}
use chekin_interview.Idempotency.Logged.Tells.Whole.{execute_once_noted-Logs}
use chekin_interview.Accounts.{operation, new_account, open_account, create_account}
use chekin_interview.Accounts.Refines.{Executed, create_account-refines, hash, work}

module _ (e : Engine) (c : Codec) (key : String) (req : CreateAccountRequest) where
  open e use {Session, ghost, flush, refresh, uuid4}

  -- `create_account`
  unfoldable pub create_account_noted : Exec (Noted Session) Outcome
  create_account_noted =
      execute_once_noted e c key operation (dump_create_request req)
        (λ claim. open_account e c claim req)

  abbrev IsNew : Outcome → Type 0
  IsNew o = o.replayed ≡ false

  open_account-IsNew : (claim : IdempotencyKey) → Gives IsNew (open_account e c claim req)
  unfolding open_account
  open_account-IsNew claim s =
      let i = (uuid4 s).0 in
      follow-Gives IsNew
        (λ u. do
          account ← refresh (new_account i req)
          let body = dump_account_response c account
          flush (set_response claim.key account.id 201 (c.jsonb body) ∷ [])
          pure (record { status_code = 201; body = body; replayed = false }))
        (flush (add_account (new_account i req) ∷ []) (uuid4 s).1)
        (λ u t.
          follow-Gives IsNew
            (λ account. do
              let body = dump_account_response c account
              flush (set_response claim.key account.id 201 (c.jsonb body) ∷ [])
              pure (record { status_code = 201; body = body; replayed = false }))
            (refresh (new_account i req) t)
            (λ account v.
              follow-Gives IsNew
                (λ u. pure (record {
                  status_code = 201;
                  body = dump_account_response c account;
                  replayed = false;
                }))
                (flush
                  (set_response claim.key account.id 201 (c.jsonb (dump_account_response c account))
                    ∷ [])
                  v)
                (λ u w. refl)))

  module _ (start : Session) where
    -- The call from `start`, with nothing logged.
    abbrev pub run : Result Outcome × Noted Session
    run = create_account_noted (record { session = start; events = [] })

    -- The account was opened, and the call has logged its commit.
    abbrev pub Announces : Outcome → Noted Session → Type 0
    Announces o n =
        Executed e c key req start o n.session × (n.events ≡ committed_line operation key ∷ [])

    -- A stored response was given back, and the call has logged that and nothing else.
    abbrev pub Repeats : Outcome → Noted Session → Type 0
    Repeats o n =
        Stored e key operation (hash e c key req) (work e c key req) start o n.session
        × Repeated e c operation key start o n.events

    -- Nothing was committed or the answer to the commit was lost, and the call has logged nothing or
    -- its failure.
    abbrev pub Regrets : Exn → Noted Session → Type 0
    Regrets x n =
        Raised e (Executed e c key req) start x n.session × Complains operation key x n.events

    joined :
        (r : Result Outcome × Noted Session)
        → Logs (Told e c IsNew operation key start) (Complains operation key) r
        → Ends
            (λ o s'.
              Executed e c key req start o s'
              ⊎ Stored e key operation (hash e c key req) (work e c key req) start o s')
            (Raised e (Executed e c key req) start)
            (forget r)
        → Ends (λ o n. Announces o n ⊎ Repeats o n) Regrets r
    joined (ok o, n) (inl (fresh, told)) (inl x) = inl (x, told)
    joined (ok o, n) (inl (fresh, told)) (inr y) =
        absurd (cc (fresh, ap (λ (x : Outcome). x.replayed) y.answer))
    joined (ok o, n) (inr r) (inl x) =
        absurd (cc (x.not_replayed, ap (λ (x : Outcome). x.replayed) r.answer))
    joined (ok o, n) (inr r) (inr y) = inr (y, r)
    joined (raise x, n) logs ends = (ends, logs)

    -- A call of create_account on a session with nothing pending and nothing logged: if it has opened
    -- the account and returns, it has logged idempotency.committed, and nothing else; if it gives back
    -- a stored response, it has logged idempotency.replayed, whose raced tells whether its first read
    -- had missed the record, and nothing else; if it raises, it has committed nothing, or the answer
    -- to its commit was lost, and it has logged nothing, or the one line of its failure, which is
    -- neither of those.
    pub create_account_noted-IsHonest :
        ghost.pending start ≡ [] → Ends (λ o n. Announces o n ⊎ Repeats o n) Regrets run
    unfolding create_account_noted create_account
    create_account_noted-IsHonest idle =
        joined run
          (execute_once_noted-Logs e c IsNew key operation (dump_create_request req)
            (λ claim. open_account e c claim req) start open_account-IsNew)
          (subst
            (Ends
              (λ o s'.
                Executed e c key req start o s'
                ⊎ Stored e key operation (hash e c key req) (work e c key req) start o s')
              (Raised e (Executed e c key req) start))
            (sym (
              execute_once_noted-Erases e c key operation (dump_create_request req)
                (λ claim. open_account e c claim req) (record { session = start; events = [] })))
            (create_account-refines e c key req start idle))
