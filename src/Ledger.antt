-- ===== src/Ledger.antt =====
-- The abstract ledger: what one committed request does to the three tables, as a relation that
-- knows nothing of sessions, locks and statements. The services refine it, and the invariants of
-- README.md are proved on it.
pub mod Invariant
pub mod Reach
use chekin_interview.Base.{ℕ, String, ◌≡◌, ◌≢◌, true, Option, none, some, ◌∷◌}
use chekin_interview.Base.Int.{ℤ, pos, ◌+ℤ◌, ◌-ℤ◌, ◌≤ℤ◌, ◌<ℤ◌}
use chekin_interview.Json.{Json}
use chekin_interview.Models.{
  Account, LedgerEntry, IdempotencyKey, Tables, find_account, find_key, update_balance,
}
use chekin_interview.Models.Constraints.{fits_money}
use chekin_interview.Schemas.{TransferRequest, CreateAccountRequest}

-- The record of a request that was executed: it holds the request's key, endpoint and fingerprint,
-- and the response that the client was sent, as the column of type JSONB gives it back.
pub record Answered (key operation hash : String) (body : Json) (now : ℕ) (r : IdempotencyKey)
    : Type 0 where
  pub same_key : r.key ≡ key
  pub same_operation : r.operation ≡ operation
  pub same_hash : r.request_hash ≡ hash
  pub status : r.response_status ≡ some 201
  pub response : r.response_body ≡ some body
  pub stamped : r.created_at ≡ now

-- One side of a transfer.
pub record IsLeg (account_id transfer_id : ℕ) (amount : ℤ) (now : ℕ) (l : LedgerEntry)
    : Type 0 where
  pub on_account : l.account_id ≡ account_id
  pub of_transfer : l.transfer_id ≡ transfer_id
  pub signed : l.amount ≡ amount
  pub stamped : l.created_at ≡ now

-- A transfer under an unused key, between two accounts of which the source covers the amount.
pub record TransferStep (key hash : String) (req : TransferRequest) (body : Json) (t u : Tables)
    : Type 0 where
  pub now : ℕ
  pub transfer_id : ℕ
  pub source : Account
  pub destination : Account
  pub claim : IdempotencyKey
  pub debit : LedgerEntry
  pub credit : LedgerEntry
  pub unused : find_key key t.idempotency_keys ≡ none
  pub source_row : find_account req.from_account_id t.accounts ≡ some source
  pub destination_row : find_account req.to_account_id t.accounts ≡ some destination
  pub distinct : req.from_account_id ≢ req.to_account_id
  pub covered : req.amount ≤ℤ source.balance
  pub in_range : fits_money (destination.balance +ℤ req.amount) ≡ true
  pub answered : Answered key "create_transfer" hash body now claim
  pub resource : claim.resource_id ≡ some transfer_id
  pub debited : IsLeg req.from_account_id transfer_id (pos 0 -ℤ req.amount) now debit
  pub credited : IsLeg req.to_account_id transfer_id req.amount now credit
  pub accounts_after :
      u.accounts
      ≡ update_balance req.to_account_id
          (destination.balance +ℤ req.amount)
          (update_balance req.from_account_id (source.balance -ℤ req.amount) t.accounts)
  pub entries_after : u.ledger_entries ≡ credit ∷ debit ∷ t.ledger_entries
  pub keys_after : u.idempotency_keys ≡ claim ∷ t.idempotency_keys

-- An account opened under an unused key.
pub record OpenStep (key hash : String) (req : CreateAccountRequest) (body : Json) (t u : Tables)
    : Type 0 where
  pub now : ℕ
  pub account : Account
  pub claim : IdempotencyKey
  pub unused : find_key key t.idempotency_keys ≡ none
  pub new_id : find_account account.id t.accounts ≡ none
  pub funded : account.balance ≡ req.initial_balance
  pub opened : account.opening_balance ≡ req.initial_balance
  pub stamped : account.created_at ≡ now
  pub in_range : fits_money req.initial_balance ≡ true
  pub answered : Answered key "create_account" hash body now claim
  pub resource : claim.resource_id ≡ some account.id
  pub accounts_after : u.accounts ≡ account ∷ t.accounts
  pub entries_after : u.ledger_entries ≡ t.ledger_entries
  pub keys_after : u.idempotency_keys ≡ claim ∷ t.idempotency_keys
