-- ===== src/Migrations.antt =====
-- migrations/versions/7d1e9b4c2a80_idempotent_account_creation.py: what the migration makes of the rows
-- of `idempotency_keys` that the previous release has written. The statements of all three files that
-- make and drop tables, indexes and the trigger are in Revisions.
pub mod Back
pub mod Catalog
pub mod Chain
pub mod Metadata
pub mod Replays
pub mod Revisions
pub mod Steps
use chekin_interview.Base.{ℕ, String, Option}
use chekin_interview.Json.{Json}
use chekin_interview.Models.{IdempotencyKey}

-- A row of the table as migrations/versions/02aa5ff6c3f1_initial_ledger_schema.py makes it.
pub record PreviousKey : Type 0 where
  pub key : String
  pub request_hash : String
  pub transfer_id : Option ℕ
  pub response_status : Option ℕ
  pub response_body : Option Json
  pub created_at : ℕ

-- The default of the new column, which fills in the rows that stand.
abbrev pub server_default : String
server_default = "create_transfer"

-- `upgrade`: `transfer_id` is renamed, `operation` is added with its default, and the default is
-- dropped.
unfoldable pub upgrade : PreviousKey → IdempotencyKey
upgrade r = record {
  key = r.key;
  operation = server_default;
  request_hash = r.request_hash;
  resource_id = r.transfer_id;
  response_status = r.response_status;
  response_body = r.response_body;
  created_at = r.created_at;
}

-- `downgrade`: `operation` is dropped, and `resource_id` renamed.
unfoldable pub downgrade : IdempotencyKey → PreviousKey
downgrade r = record {
  key = r.key;
  request_hash = r.request_hash;
  transfer_id = r.resource_id;
  response_status = r.response_status;
  response_body = r.response_body;
  created_at = r.created_at;
}
