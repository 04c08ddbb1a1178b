-- ===== src/Migrations/Metadata.antt =====
-- The tables and indexes that the classes of app/models.py declare, `Base.metadata`, against those that
-- the migrations make.
use mathlib.Core.Path.{subst}
use mathlib.Core.List.{Perm, perm_append_singleton}
use mathlib.Core.List
use chekin_interview.Base.{String, ◌≡◌, refl, sym, ap, false, some, List, [], ◌∷◌}
use chekin_interview.Migrations.Catalog.{
  uuid, jsonb, integer, numeric, string, Table, Index, table_key, index_key, a_table, an_index,
  a_trigger, a_function, View, Ddl,
}
use chekin_interview.Migrations.Revisions.{
  column, optional_column, created_at, money_trigger, conserves, conserves_trigger, upgrade_head,
}
use chekin_interview.Migrations.Chain.{
  IsNew, operation_table, after_conservation, upgrade_head-Leads,
}

-- A class of app/models.py: its table, and its indexes by name. What Python fills in is not of the table.
pub record Declared : Type 0 where
  pub name : String
  pub table : Table
  pub indexes : List (String × Index)

-- `Account`
abbrev pub account_class : Declared
account_class = record {
  name = "accounts";
  table = record {
    columns =
        column "id" uuid
        ∷ column "balance" (numeric 20 4)
        ∷ column "opening_balance" (numeric 20 4)
        ∷ created_at
        ∷ [];
    checks =
        record { name = "ck_accounts_balance_non_negative"; sql = "balance >= 0" }
        ∷ record { name = "ck_accounts_opening_non_negative"; sql = "opening_balance >= 0" }
        ∷ [];
    primary_key = "id" ∷ [];
    foreign_keys = [];
  };
  indexes = [];
}

-- `LedgerEntry`
abbrev pub entry_class : Declared
entry_class = record {
  name = "ledger_entries";
  table = record {
    columns =
        column "id" uuid
        ∷ column "transfer_id" uuid
        ∷ column "account_id" uuid
        ∷ column "amount" (numeric 20 4)
        ∷ created_at
        ∷ [];
    checks = record { name = "ck_ledger_entries_amount_non_zero"; sql = "amount <> 0" } ∷ [];
    primary_key = "id" ∷ [];
    foreign_keys = record { column = "account_id"; table = "accounts"; refers_to = "id" } ∷ [];
  };
  indexes =
      (
        "ix_ledger_entries_account_id_created_at",
        record {
          table = "ledger_entries";
          columns = "account_id" ∷ "created_at" ∷ "id" ∷ [];
          unique = false;
        },
      )
      ∷ (
        "ix_ledger_entries_transfer_id",
        record { table = "ledger_entries"; columns = "transfer_id" ∷ []; unique = false },
      )
      ∷ [];
}

-- `IdempotencyKey`
abbrev pub key_class : Declared
key_class = record {
  name = "idempotency_keys";
  table = record {
    columns =
        column "key" (string 255)
        ∷ column "operation" (string 32)
        ∷ column "request_hash" (string 64)
        ∷ optional_column "resource_id" uuid
        ∷ optional_column "response_status" integer
        ∷ optional_column "response_body" jsonb
        ∷ created_at
        ∷ [];
    checks = [];
    primary_key = "key" ∷ [];
    foreign_keys = [];
  };
  indexes = [];
}

abbrev pub metadata : List Declared
metadata = account_class ∷ entry_class ∷ key_class ∷ []

-- A table as declared, but for the order of its columns.
pub record SameTable (declared made : Table) : Type 0 where
  pub columns : Perm declared.columns made.columns
  pub checks : made.checks ≡ declared.checks
  pub primary_key : made.primary_key ≡ declared.primary_key
  pub foreign_keys : made.foreign_keys ≡ declared.foreign_keys

abbrev pub HasIndexes : List (String × Index) → View → Type 0
HasIndexes [] v = Unit
HasIndexes ((n, i) ∷ rest) v = (v (index_key n) ≡ some (an_index i)) × HasIndexes rest v

-- A catalog that has what the classes declare.
abbrev pub HasTables : List Declared → View → Type 0
HasTables [] v = Unit
HasTables (c ∷ cs) v =
    ((made : Table) × (v (table_key c.name) ≡ some (a_table made)) × SameTable c.table made)
    × HasIndexes c.indexes v
    × HasTables cs v

SameTable-refl : (t : Table) → SameTable t t
SameTable-refl t = record {
  columns = List.Perm.refl t.columns;
  checks = refl;
  primary_key = refl;
  foreign_keys = refl;
}

-- The migration has added `operation` at the end.
key_columns-perm : Perm key_class.table.columns operation_table.columns
key_columns-perm =
    List.Perm.cons (column "key" (string 255))
      (List.Perm.symm (perm_append_singleton (column "operation" (string 32)) _))

head-HasTables : (v : View) → HasTables metadata (after_conservation v)
head-HasTables v = (
  (account_class.table, refl, SameTable-refl account_class.table),
  tt,
  (
    (entry_class.table, refl, SameTable-refl entry_class.table),
    (refl, (refl, tt)),
    (
      (
        operation_table,
        refl,
        record {
          columns = key_columns-perm;
          checks = refl;
          primary_key = refl;
          foreign_keys = refl;
        },
      ),
      tt,
      tt,
    ),
  ),
)

-- On a catalog that has nothing of the ledger's names, and nothing that refers to them: if the migrations
-- run, the catalog has what the classes of the models declare, each table with its columns, but for
-- their order, its CHECKs, its primary key and its foreign keys, and each index; and it has the deferred
-- trigger on ledger_entries with its function.
pub upgrade_head-HasTables :
    (d : Ddl) (s head : d.Catalog)
    → IsNew (d.lookup s)
    → upgrade_head d s ≡ some head
    → HasTables metadata (d.lookup head)
      × (d.lookup head conserves_trigger ≡ some (a_trigger money_trigger))
      × (d.lookup head conserves ≡ some a_function)
upgrade_head-HasTables d s head fresh up =
    let at = upgrade_head-Leads d (d.lookup s) fresh s head refl up in
    (
      subst (HasTables metadata) (sym at) (head-HasTables (d.lookup s)),
      ap (λ v. v conserves_trigger) at,
      ap (λ v. v conserves) at,
    )
