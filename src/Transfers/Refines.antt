-- ===== src/Transfers/Refines.antt =====
-- `execute_transfer` refines the abstract ledger: whatever other sessions commit meanwhile, it
-- commits one transfer of the abstract ledger, or nothing.
use native.Mathlib.Decide.{ℕ_discrete}
use chekin_interview.Base.{
  ==_refl, ==_ne, String, ◌≡◌, ◌≢◌, refl, ◌∙◌, ap, ◌⊎◌, inl, inr, false, List, [], ◌∷◌, ◌++◌,
}
use chekin_interview.Models.{IdempotencyKey, Tables, Write}
use chekin_interview.Schemas.{
  Codec, TransferRequest, dump_transfer_request, dump_transfer_response, TransferResponse,
}
use chekin_interview.Database.{Engine, Ends}
use chekin_interview.Database.Rules.{Ends-imp}
use chekin_interview.Database.Exec.{Exec}
use chekin_interview.Idempotency.{Outcome, new_claim, fingerprint, execute_once}
use chekin_interview.Idempotency.Contract.{Fresh, Done, Failed}
use chekin_interview.Idempotency.Once.{execute_once-Ends}
use chekin_interview.Idempotency.Stored.{Stored, Replayed-Stored, Raised, Failed-Raised}
use chekin_interview.Transfers.{operation, move_money, execute_transfer}
use chekin_interview.Transfers.Lands.{Fresh-TransferStep, source_id, destination_id}
use chekin_interview.Transfers.Moves.{Moved}
use chekin_interview.Transfers.Moves.Whole.{move_money-Performs}
use chekin_interview.Ledger.{TransferStep}

module _ (e : Engine) (c : Codec) (key : String) (req : TransferRequest) where
  open e use {Session, ghost}

  abbrev pub work : IdempotencyKey → Exec Session Outcome
  work claim = move_money e c claim req

  abbrev pub hash : String
  hash = fingerprint c (dump_transfer_request c req)

  -- The request was executed now: one step of the abstract ledger is committed, and the response
  -- tells its transfer.
  pub record Executed (s : Session) (o : Outcome) (s' : Session) : Type 0 where
    pub onto : Tables
    pub step : TransferStep key hash req (c.jsonb o.body) onto (ghost.committed s')
    pub status : o.status_code ≡ 201
    pub not_replayed : o.replayed ≡ false
    pub tells :
        o.body
        ≡ dump_transfer_response c (record {
          transfer_id = step.transfer_id;
          from_account_id = req.from_account_id;
          to_account_id = req.to_account_id;
          amount = req.amount;
          created_at = step.now;
        })
    pub writes : List Write
    pub one_commit : ghost.own s' ≡ ghost.own s ++ writes ∷ []

  Fresh-Executed :
      req.from_account_id ≢ req.to_account_id
      → (s : Session) (o : Outcome) (s' : Session)
      → Fresh e (Moved e c req) (new_claim key operation hash) s o s'
      → Executed s o s'
  unfolding Fresh-TransferStep
  Fresh-Executed distinct s o s' f = record {
    onto = f.landed.onto;
    step = Fresh-TransferStep e c key req distinct s o s' f;
    status = ap (λ (x : Outcome). x.status_code) f.worked.answer;
    not_replayed = ap (λ (x : Outcome). x.replayed) f.worked.answer;
    tells =
        ap (λ (x : Outcome). x.body) f.worked.answer
        ∙ ap (λ (r : TransferResponse). dump_transfer_response c r)
            (λ i. record {
              transfer_id = f.worked.transfer_id;
              from_account_id = source_id e c key req distinct s o s' f i;
              to_account_id = destination_id e c key req distinct s o s' f i;
              amount = req.amount;
              created_at = f.worked.at_time i;
            });
    writes = ghost.pending f.before;
    one_commit = f.landed.own_added ∙ ap (λ w. w ++ ghost.pending f.before ∷ []) f.own_before;
  }

  pub execute_transfer-refines :
      (s : Session)
      → ghost.pending s ≡ []
      → Ends
          (λ o s'. Executed s o s' ⊎ Stored e key operation hash work s o s')
          (Raised e Executed s)
          (execute_transfer e c key req s)
  unfolding execute_transfer
  execute_transfer-refines s idle = elim (ℕ_discrete req.from_account_id req.to_account_id) [
    | yes same ↦ rw (same, ==_refl req.to_account_id) (inl refl)
    | no distinct ↦ rw (==_ne distinct) (
        Ends-imp (Done e (Moved e c req) key operation hash work s)
          (λ o s'. Executed s o s' ⊎ Stored e key operation hash work s o s')
          (Failed e (Moved e c req) key operation hash work s) (Raised e Executed s)
          (execute_once e c key operation (dump_transfer_request c req) work s)
          (execute_once-Ends e (Moved e c req) c key operation (dump_transfer_request c req) work s
            (move_money-Performs e c req) idle)
          (λ o s'. elim [
            | inl r ↦ inr (Replayed-Stored e key operation hash work s o s' r)
            | inr f ↦ inl (Fresh-Executed distinct s o s' f)
          ])
          (Failed-Raised e Executed (Moved e c req) key operation hash work s
            (λ o t. Fresh-Executed distinct s o t)))
  ]
