-- ===== src/Transfers/Moves.antt =====
-- What `_move_money` has done in the transaction that `execute_once` has opened: the row changes of
-- one covered transfer between two held rows.
pub mod Between
pub mod Whole
use mathlib.Core.Path.{subst}
use chekin_interview.Base.{
  ℕ, ◌≡◌, ◌≢◌, refl, sym, ◌∙◌, ap, inl, inr, true, false, some, List, [], ◌∷◌, ◌++◌, Bool-cases,
}
use chekin_interview.Base.Int.{◌≤ℤ◌, ltb_ℤ, le_of_ltb_false}
use chekin_interview.Json.{Json}
use chekin_interview.Errors.{Exn}
use chekin_interview.Models.{
  Account, IdempotencyKey, Write, add_key, set_response, find_account, LeavesAccounts,
}
use chekin_interview.Models.Constraints.{admits}
use chekin_interview.Schemas.{Codec, TransferRequest, dump_transfer_response}
use chekin_interview.Database.{Engine, account_row, Within, Ends, All}
use chekin_interview.Database.Exec.{pure, always, ◌>>=◌, ◌>>◌}
use chekin_interview.Database.Rules.{Ends-bind, Ends-imp, Within-trans}
use chekin_interview.Idempotency.{Outcome}
use chekin_interview.Idempotency.Contract.{Performs}
use chekin_interview.Transfers.{
  sorted, get_item, legs, lock_accounts, or_key_error, move_between, move_money,
}
use chekin_interview.Transfers.Sorted.{Listed-sorted}
use chekin_interview.Transfers.Locks.{Locked, get_item-Locks, lock_each-Locks}

module _ (e : Engine) (c : Codec) where
  open e use {Session, ghost}

  -- A row that the transaction holds, with its committed content.
  abbrev pub Holds : ℕ → Account → Session → Type 0
  Holds i a s =
      ghost.Held s (account_row i) × (find_account i (ghost.committed s).accounts ≡ some a)

  pub Holds-Within :
      (i : ℕ) (a : Account) (s t : Session) → Within ghost s t → Holds i a s → Holds i a t
  Holds-Within i a s t w h =
      (w.held_kept (account_row i) h.0, sym (w.rows_kept (account_row i) h.0) ∙ h.1)

  abbrev pub response : TransferRequest → Account → Account → ℕ → ℕ → Json
  response req source destination transfer_id created_at = dump_transfer_response c (record {
    transfer_id = transfer_id;
    from_account_id = source.id;
    to_account_id = destination.id;
    amount = req.amount;
    created_at = created_at;
  })

  -- The outcome of a transfer that was executed just now.
  abbrev pub created : TransferRequest → Account → Account → ℕ → ℕ → Outcome
  created req source destination transfer_id created_at = record {
    status_code = 201;
    body = response req source destination transfer_id created_at;
    replayed = false;
  }

  -- The row changes of its last flush.
  abbrev pub changes :
      TransferRequest → IdempotencyKey → Account → Account → ℕ → ℕ → ℕ → ℕ → List Write
  changes req claim source destination transfer_id debit_id credit_id created_at =
      legs debit_id credit_id transfer_id source destination req.amount
      ++ set_response claim.key transfer_id 201
          (c.jsonb (response req source destination transfer_id created_at))
        ∷ []

  -- The transaction of one transfer, complete but for its commit.
  pub record Moved (req : TransferRequest) (claim : IdempotencyKey) (o : Outcome) (s : Session)
      : Type 0 where
    pub source : Account
    pub destination : Account
    pub transfer_id : ℕ
    pub debit_id : ℕ
    pub credit_id : ℕ
    pub created_at : ℕ
    pub at_time : created_at ≡ ghost.time s
    pub holds_source : Holds req.from_account_id source s
    pub holds_destination : Holds req.to_account_id destination s
    pub covered : req.amount ≤ℤ source.balance
    pub answer : o ≡ created req source destination transfer_id created_at
    pub writes :
        ghost.pending s
        ≡ add_key claim
          ∷ changes req claim source destination transfer_id debit_id credit_id created_at
    pub admitted :
        All
          (λ w. admits w ≡ true)
          (changes req claim source destination transfer_id debit_id credit_id created_at)
