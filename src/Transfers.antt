-- ===== src/Transfers.antt =====
-- app/services/transfers.py: money movement. Its log line is in Logged.
pub mod Asked
pub mod Calm
pub mod Lands
pub mod Locks
pub mod Logged
pub mod Moves
pub mod Refines
pub mod Retry
pub mod Sorted
pub mod Succeeds
pub mod Waits
use chekin_interview.Base.{
  ℕ, String, false, Option, none, some, List, [], ◌∷◌, ◌++◌, leb, ◌==◌, if◌then◌else◌,
}
use chekin_interview.Base.Int.{ℤ, pos, ◌+ℤ◌, ◌-ℤ◌, ltb_ℤ}
use chekin_interview.Json.{str, end, field}
use chekin_interview.Errors.{
  Exn, ledger, other_exception, account_not_found, insufficient_funds, same_account_transfer,
}
use chekin_interview.Models.{Account, IdempotencyKey, Write, add_entry, set_balance, set_response}
use chekin_interview.Schemas.{Codec, TransferRequest, dump_transfer_request, dump_transfer_response}
use chekin_interview.Schemas.Money.{money_text}
use chekin_interview.Database.{Engine}
use chekin_interview.Database.Exec.{Exec, pure, throw, always, ◌>>=◌, ◌>>◌}
use chekin_interview.Idempotency.{Outcome, execute_once}

abbrev pub operation : String
operation = "create_transfer"

-- `sorted` on ids.
unfoldable pub insert_sorted : ℕ → List ℕ → List ℕ
insert_sorted x [] = x ∷ []
insert_sorted x (y ∷ ys) = if leb x y then x ∷ y ∷ ys else y ∷ insert_sorted x ys

unfoldable pub sorted : List ℕ → List ℕ
unfolding insert_sorted
sorted [] = []
sorted (x ∷ xs) = insert_sorted x (sorted xs)

abbrev pub same_account : Exn
same_account = ledger (record {
  kind = same_account_transfer;
  message = "Cannot transfer to the same account.";
  details = end;
})

abbrev pub not_found : Codec → ℕ → Exn
not_found c account_id = ledger (record {
  kind = account_not_found;
  message = "Account does not exist.";
  details = field "account_id" (str (c.uuid_text account_id)) end;
})

abbrev pub short_of_funds : Codec → Account → ℤ → Exn
short_of_funds c source requested = ledger (record {
  kind = insufficient_funds;
  message = "Source account has insufficient funds.";
  details = field "account_id" (str (c.uuid_text source.id)) (
      field "balance" (str (money_text source.balance))
        (field "requested" (str (money_text requested)) end));
})

-- `accounts[account_id]`, which raises a KeyError for a missing id.
unfoldable pub get_item : ℕ → List (ℕ × Account) → Option Account
get_item i [] = none
get_item i ((j, a) ∷ rest) = if j == i then some a else get_item i rest

-- The row changes of one transfer: two balances and two signed entries.
unfoldable pub legs : ℕ → ℕ → ℕ → Account → Account → ℤ → List Write
legs debit_id credit_id transfer_id source destination amount =
    set_balance source.id (source.balance -ℤ amount)
    ∷ set_balance destination.id (destination.balance +ℤ amount)
    ∷ add_entry (record {
      id = debit_id;
      transfer_id = transfer_id;
      account_id = source.id;
      amount = pos 0 -ℤ amount;
      created_at = 0;
    })
    ∷ add_entry (record {
      id = credit_id;
      transfer_id = transfer_id;
      account_id = destination.id;
      amount = amount;
      created_at = 0;
    })
    ∷ []

module _ (e : Engine) (c : Codec) where
  open e use {Session, lock_account, flush, now, uuid4}

  unfoldable pub or_not_found : ℕ → Option Account → Exec Session Account
  or_not_found i none = throw (not_found c i)
  or_not_found i (some a) = pure a

  -- The loop of `_lock_accounts`: one FOR UPDATE statement for each id, in order.
  unfoldable pub lock_each : List ℕ → Exec Session (List (ℕ × Account))
  unfolding or_not_found
  lock_each [] = pure []
  lock_each (i ∷ rest) = do
    found ← lock_account i
    account ← or_not_found i found
    others ← lock_each rest
    pure ((i, account) ∷ others)

  -- `_lock_accounts`
  unfoldable pub lock_accounts : List ℕ → Exec Session (List (ℕ × Account))
  unfolding sorted
  lock_accounts account_ids = lock_each (sorted account_ids)

  unfoldable pub or_key_error : Option Account → Exec Session Account
  or_key_error none = throw (other_exception "KeyError")
  or_key_error (some a) = pure a

  -- The part of `_move_money` after the accounts are found: the check of funds, the two balances,
  -- the two entries and the response, which the last flush writes together.
  unfoldable pub move_between :
      IdempotencyKey → TransferRequest → Account → Account → Exec Session Outcome
  unfolding legs
  move_between claim req source destination =
      if ltb_ℤ source.balance req.amount then throw (short_of_funds c source req.amount) else do
        transfer_id ← always uuid4
        created_at ← now
        let body = dump_transfer_response c (record {
          transfer_id = transfer_id;
          from_account_id = source.id;
          to_account_id = destination.id;
          amount = req.amount;
          created_at = created_at;
        })
        debit_id ← always uuid4
        credit_id ← always uuid4
        flush (
            legs debit_id credit_id transfer_id source destination req.amount
            ++ set_response claim.key transfer_id 201 (c.jsonb body) ∷ [])
        pure (record { status_code = 201; body = body; replayed = false })

  -- `_move_money`
  unfoldable pub move_money : IdempotencyKey → TransferRequest → Exec Session Outcome
  unfolding move_between
  move_money claim req = do
    accounts ← lock_accounts (req.from_account_id ∷ req.to_account_id ∷ [])
    source ← or_key_error (get_item req.from_account_id accounts)
    destination ← or_key_error (get_item req.to_account_id accounts)
    move_between claim req source destination

  -- `execute_transfer`
  unfoldable pub execute_transfer : String → TransferRequest → Exec Session Outcome
  execute_transfer idempotency_key req =
      if req.from_account_id == req.to_account_id
      then throw same_account
      else execute_once e c idempotency_key operation (dump_transfer_request c req)
          (λ claim. move_money claim req)
