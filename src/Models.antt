-- ===== src/Models.antt =====
-- app/models.py: the rows of the three tables, and the row changes that the services ask for. An
-- id is the 128-bit number of a UUID, a time the number of microseconds since the epoch, and an
-- amount of money the number of ten-thousandths, since the columns are NUMERIC(20, 4).
pub mod Constraints
pub mod Conservation
pub mod Lookup
pub mod Sums
use chekin_interview.Base.{
  ℕ, String, List, [], ◌∷◌, Option, none, some, ◌==◌, str_eq, if◌then◌else◌,
}
use chekin_interview.Base.Int.{ℤ}
use chekin_interview.Json.{Json}

-- `class Account`
pub record Account : Type 0 where
  pub id : ℕ
  pub balance : ℤ
  pub opening_balance : ℤ
  pub created_at : ℕ

-- `class LedgerEntry`
pub record LedgerEntry : Type 0 where
  pub id : ℕ
  pub transfer_id : ℕ
  pub account_id : ℕ
  pub amount : ℤ
  pub created_at : ℕ

-- `class IdempotencyKey`
pub record IdempotencyKey : Type 0 where
  pub key : String
  pub operation : String
  pub request_hash : String
  pub resource_id : Option ℕ
  pub response_status : Option ℕ
  pub response_body : Option Json
  pub created_at : ℕ

-- The three tables. The order of rows means nothing; a new row stands first.
pub record Tables : Type 0 where
  pub accounts : List Account
  pub ledger_entries : List LedgerEntry
  pub idempotency_keys : List IdempotencyKey

-- One row change that a flush sends: `db.add` of a new object, or changed attributes of a loaded
-- one.
pub data Write : Type 0 where
  add_key : IdempotencyKey → Write
  add_account : Account → Write
  add_entry : LedgerEntry → Write
  set_balance : ℕ → ℤ → Write
  set_response : String → ℕ → ℕ → Json → Write

-- The row with a given primary key.
unfoldable pub find_account : ℕ → List Account → Option Account
find_account i [] = none
find_account i (a ∷ rest) = if a.id == i then some a else find_account i rest

unfoldable pub find_key : String → List IdempotencyKey → Option IdempotencyKey
find_key k [] = none
find_key k (r ∷ rest) = if str_eq r.key k then some r else find_key k rest

unfoldable pub update_balance : ℕ → ℤ → List Account → List Account
update_balance i v [] = []
update_balance i v (a ∷ rest) =
    if a.id == i then record a { balance = v } ∷ rest else a ∷ update_balance i v rest

-- What `record.resource_id = …; record.response_status = …; record.response_body = …` leaves.
abbrev pub answered : IdempotencyKey → ℕ → ℕ → Json → IdempotencyKey
answered r resource status body = record r {
  resource_id = some resource;
  response_status = some status;
  response_body = some body;
}

unfoldable pub update_response : String → ℕ → ℕ → Json → List IdempotencyKey → List IdempotencyKey
update_response k resource status body [] = []
update_response k resource status body (r ∷ rest) =
    if str_eq r.key k
    then answered r resource status body ∷ rest
    else r ∷ update_response k resource status body rest

-- The tables after a row change at the time `now` of its transaction: the server's default fills in
-- `created_at` of a new row.
abbrev pub apply_write : ℕ → Write → Tables → Tables
apply_write now (add_key r) t = record t {
  idempotency_keys = record r { created_at = now } ∷ t.idempotency_keys;
}
apply_write now (add_account a) t = record t {
  accounts = record a { created_at = now } ∷ t.accounts;
}
apply_write now (add_entry e) t = record t {
  ledger_entries = record e { created_at = now } ∷ t.ledger_entries;
}
apply_write now (set_balance i v) t = record t { accounts = update_balance i v t.accounts }
apply_write now (set_response k resource status body) t = record t {
  idempotency_keys = update_response k resource status body t.idempotency_keys;
}

abbrev pub apply : ℕ → List Write → Tables → Tables
apply now [] t = t
apply now (w ∷ ws) t = apply now ws (apply_write now w t)

-- Row changes that touch no account.
abbrev pub LeavesAccounts : List Write → Type 0
LeavesAccounts [] = Unit
LeavesAccounts (add_account a ∷ ws) = ⊥
LeavesAccounts (set_balance i v ∷ ws) = ⊥
LeavesAccounts (_ ∷ ws) = LeavesAccounts ws
