-- ===== src/Accounts.antt =====
-- app/services/accounts.py: opening an account, reading one, and the history of one.
pub mod History
pub mod Logged
pub mod Opens
pub mod Refines
use chekin_interview.Base.{ℕ, String, false, none, some, [], ◌∷◌}
use chekin_interview.Models.{Account, IdempotencyKey, add_account, set_response}
use chekin_interview.Schemas.{
  Codec, CreateAccountRequest, dump_create_request, dump_account_response,
}
use chekin_interview.Database.{Engine}
use chekin_interview.Database.Exec.{Exec, pure, throw, always, ◌>>=◌, ◌>>◌}
use chekin_interview.Idempotency.{Outcome, execute_once}
use chekin_interview.Transfers.{not_found}

abbrev pub operation : String
operation = "create_account"

-- `Account(balance=…, opening_balance=…)`, with the id that the column's default makes.
abbrev pub new_account : ℕ → CreateAccountRequest → Account
new_account i req = record {
  id = i;
  balance = req.initial_balance;
  opening_balance = req.initial_balance;
  created_at = 0;
}

module _ (e : Engine) (c : Codec) where
  open e use {Session, get_account, flush, refresh, uuid4}

  -- `_open_account`
  unfoldable pub open_account : IdempotencyKey → CreateAccountRequest → Exec Session Outcome
  open_account claim req = do
    i ← always uuid4
    flush (add_account (new_account i req) ∷ [])
    account ← refresh (new_account i req)
    let body = dump_account_response c account
    flush (set_response claim.key account.id 201 (c.jsonb body) ∷ [])
    pure (record { status_code = 201; body = body; replayed = false })

  -- `create_account`
  unfoldable pub create_account : String → CreateAccountRequest → Exec Session Outcome
  create_account idempotency_key req =
      execute_once e c idempotency_key operation (dump_create_request req)
        (λ claim. open_account claim req)

  -- `get_account`
  unfoldable pub read_account : ℕ → Exec Session Account
  read_account account_id = get_account account_id >>= λ found. elim found [
    | none ↦ throw (not_found c account_id)
    | some a ↦ pure a
  ]
