-- ===== src/Migrations/Revisions.antt =====
-- The three revisions in migrations/versions/, as the statements that they run.
use chekin_interview.Base.{String, true, false, Option, none, some, List, [], ◌∷◌}
use chekin_interview.Migrations.Catalog.{
  SqlType, uuid, jsonb, integer, timestamp_tz, numeric, string, Column, Table, Index, Trigger, Key,
  table_key, index_key, function_key, trigger_key, a_table, an_index, a_function, a_trigger,
  rename_column, add_column, set_default, drop_column, Ddl,
}

-- `sa.Column(name, type, nullable=False)`
abbrev pub column : String → SqlType → Column
column name type = record { name = name; type = type; nullable = false; server_default = none }

-- `nullable=True`
abbrev pub optional_column : String → SqlType → Column
optional_column name type = record (column name type) { nullable = true }

-- `sa.DateTime(timezone=True), server_default=sa.text('now()'), nullable=False`
abbrev pub created_at : Column
created_at = record (column "created_at" timestamp_tz) { server_default = some "now()" }

abbrev pub accounts : Key
accounts = table_key "accounts"

abbrev pub idempotency_keys : Key
idempotency_keys = table_key "idempotency_keys"

abbrev pub ledger_entries : Key
ledger_entries = table_key "ledger_entries"

abbrev pub by_account : Key
by_account = index_key "ix_ledger_entries_account_id_created_at"

abbrev pub by_transfer : Key
by_transfer = index_key "ix_ledger_entries_transfer_id"

abbrev pub conserves : Key
conserves = function_key "assert_transfer_conserves_money"

abbrev pub conserves_trigger : Key
conserves_trigger = trigger_key "trg_ledger_entries_conserve_money"

abbrev pub accounts_table : Table
accounts_table = record {
  columns =
      column "id" uuid
      ∷ column "balance" (numeric 20 4)
      ∷ column "opening_balance" (numeric 20 4)
      ∷ created_at
      ∷ [];
  checks =
      record { name = "ck_accounts_balance_non_negative"; sql = "balance >= 0" }
      ∷ record { name = "ck_accounts_opening_non_negative"; sql = "opening_balance >= 0" }
      ∷ [];
  primary_key = "id" ∷ [];
  foreign_keys = [];
}

abbrev pub keys_table : Table
keys_table = record {
  columns =
      column "key" (string 255)
      ∷ column "request_hash" (string 64)
      ∷ optional_column "transfer_id" uuid
      ∷ optional_column "response_status" integer
      ∷ optional_column "response_body" jsonb
      ∷ created_at
      ∷ [];
  checks = [];
  primary_key = "key" ∷ [];
  foreign_keys = [];
}

abbrev pub entries_table : Table
entries_table = record {
  columns =
      column "id" uuid
      ∷ column "transfer_id" uuid
      ∷ column "account_id" uuid
      ∷ column "amount" (numeric 20 4)
      ∷ created_at
      ∷ [];
  checks = record { name = "ck_ledger_entries_amount_non_zero"; sql = "amount <> 0" } ∷ [];
  primary_key = "id" ∷ [];
  foreign_keys = record { column = "account_id"; table = "accounts"; refers_to = "id" } ∷ [];
}

abbrev pub account_index : Index
account_index = record {
  table = "ledger_entries";
  columns = "account_id" ∷ "created_at" ∷ "id" ∷ [];
  unique = false;
}

abbrev pub transfer_index : Index
transfer_index = record { table = "ledger_entries"; columns = "transfer_id" ∷ []; unique = false }

abbrev pub money_trigger : Trigger
money_trigger = record {
  table = "ledger_entries";
  function = "assert_transfer_conserves_money";
  event = "AFTER INSERT";
  each_row = true;
  deferred = true;
}

-- The column that 7d1e9b4c2a80 adds.
abbrev pub operation_column : Column
operation_column = record (column "operation" (string 32)) {
  server_default = some "create_transfer";
}

module _ (d : Ddl) where
  open d use {Catalog, create, drop, alter}

  -- Statements one after the other; each may fail.
  abbrev pub on_success : (Catalog → Option Catalog) → Option Catalog → Option Catalog
  on_success f none = none
  on_success f (some s) = f s

  abbrev pub run : List (Catalog → Option Catalog) → Catalog → Option Catalog
  run [] s = some s
  run (f ∷ fs) s = on_success (run fs) (f s)

  -- 02aa5ff6c3f1
  unfoldable pub upgrade_initial : Catalog → Option Catalog
  upgrade_initial = run (
      create accounts (a_table accounts_table)
      ∷ create idempotency_keys (a_table keys_table)
      ∷ create ledger_entries (a_table entries_table)
      ∷ create by_account (an_index account_index)
      ∷ create by_transfer (an_index transfer_index)
      ∷ [])

  unfoldable pub downgrade_initial : Catalog → Option Catalog
  downgrade_initial = run (
      drop by_transfer
      ∷ drop by_account
      ∷ drop ledger_entries
      ∷ drop idempotency_keys
      ∷ drop accounts
      ∷ [])

  -- 7d1e9b4c2a80
  unfoldable pub upgrade_operation : Catalog → Option Catalog
  upgrade_operation = run (
      alter "idempotency_keys" (rename_column "transfer_id" "resource_id")
      ∷ alter "idempotency_keys" (add_column operation_column)
      ∷ alter "idempotency_keys" (set_default "operation" none)
      ∷ [])

  unfoldable pub downgrade_operation : Catalog → Option Catalog
  downgrade_operation = run (
      alter "idempotency_keys" (drop_column "operation")
      ∷ alter "idempotency_keys" (rename_column "resource_id" "transfer_id")
      ∷ [])

  -- c4b8f2e07a13. The body of the function is `conserves_money` of Models.Constraints.
  unfoldable pub upgrade_conservation : Catalog → Option Catalog
  upgrade_conservation =
      run (create conserves a_function ∷ create conserves_trigger (a_trigger money_trigger) ∷ [])

  unfoldable pub downgrade_conservation : Catalog → Option Catalog
  downgrade_conservation = run (drop conserves_trigger ∷ drop conserves ∷ [])

  -- `alembic upgrade head` and `alembic downgrade base`, along `down_revision`.
  unfoldable pub upgrade_head : Catalog → Option Catalog
  unfolding upgrade_initial upgrade_operation upgrade_conservation
  upgrade_head = run (upgrade_initial ∷ upgrade_operation ∷ upgrade_conservation ∷ [])

  unfoldable pub downgrade_base : Catalog → Option Catalog
  unfolding downgrade_initial downgrade_operation downgrade_conservation
  downgrade_base = run (downgrade_conservation ∷ downgrade_operation ∷ downgrade_initial ∷ [])
