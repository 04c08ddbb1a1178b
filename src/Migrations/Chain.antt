-- ===== src/Migrations/Chain.antt =====
-- The revisions one after the other, on the names of any catalog that has none of theirs.
use mathlib.Core.Path.{subst, fun_ext}
use chekin_interview.Base.{
  ◌≡◌, refl, false, Option, none, some, [], ◌∷◌, ◌++◌, inl, inr, Bool-cases,
}
use chekin_interview.Migrations.Catalog.{
  uuid, integer, jsonb, string, Table, Key, Object, a_table, an_index, a_function, a_trigger,
  same_key, needs, among, View, put, IsFree, rename_column, add_column, set_default, Ddl,
}
use chekin_interview.Migrations.Revisions.{
  column, optional_column, created_at, accounts, idempotency_keys, ledger_entries, by_account,
  by_transfer, conserves, conserves_trigger, accounts_table, keys_table, entries_table,
  account_index, transfer_index, money_trigger, operation_column, upgrade_initial,
  upgrade_operation, upgrade_conservation, upgrade_head,
}
use chekin_interview.Migrations.Steps.{
  put-IsFree, Leads, done, step, Runs-Leads, create-Leads, alter-Leads,
}

-- A name that is not taken, and that nothing refers to.
abbrev pub IsUnused : Key → View → Type 0
IsUnused k v = (v k ≡ none) × IsFree k v

-- A catalog that has nothing of the ledger.
pub record IsNew (v : View) : Type 0 where
  pub new_accounts : IsUnused accounts v
  pub new_keys : IsUnused idempotency_keys v
  pub new_entries : IsUnused ledger_entries v
  pub new_by_account : IsUnused by_account v
  pub new_by_transfer : IsUnused by_transfer v
  pub new_function : IsUnused conserves v
  pub new_trigger : IsUnused conserves_trigger v

pub put-over : (k : Key) (o o' : Option Object) (v : View) → put k o (put k o' v) ≡ put k o v
put-over k o o' v =
    fun_ext λ j. elim (Bool-cases (same_key j k)) [
      | inl same ↦ rw same refl
      | inr differ ↦ rw differ refl
    ]

-- `idempotency_keys` after 7d1e9b4c2a80, and between its statements.
abbrev pub renamed_table : Table
renamed_table = record keys_table {
  columns =
      column "key" (string 255)
      ∷ column "request_hash" (string 64)
      ∷ optional_column "resource_id" uuid
      ∷ optional_column "response_status" integer
      ∷ optional_column "response_body" jsonb
      ∷ created_at
      ∷ [];
}

abbrev filled_table : Table
filled_table = record renamed_table { columns = renamed_table.columns ++ operation_column ∷ [] }

abbrev pub operation_table : Table
operation_table = record renamed_table {
  columns = renamed_table.columns ++ column "operation" (string 32) ∷ [];
}

abbrev pub after_accounts : View → View
after_accounts v = put accounts (some (a_table accounts_table)) v

abbrev pub after_keys : View → View
after_keys v = put idempotency_keys (some (a_table keys_table)) (after_accounts v)

abbrev pub after_entries : View → View
after_entries v = put ledger_entries (some (a_table entries_table)) (after_keys v)

abbrev pub after_index : View → View
after_index v = put by_account (some (an_index account_index)) (after_entries v)

-- The names after each revision.
abbrev pub after_initial : View → View
after_initial v = put by_transfer (some (an_index transfer_index)) (after_index v)

abbrev pub after_operation : View → View
after_operation v = put idempotency_keys (some (a_table operation_table)) (after_initial v)

abbrev pub after_function : View → View
after_function v = put conserves (some a_function) (after_operation v)

abbrev pub after_conservation : View → View
after_conservation v = put conserves_trigger (some (a_trigger money_trigger)) (after_function v)

-- What nothing needs after the statements of 02aa5ff6c3f1.
module _ (k : Key) (v : View) where
  pub tables-IsFree : IsFree k v → IsFree k (after_keys v)
  tables-IsFree free =
      put-IsFree k idempotency_keys (a_table keys_table) (after_accounts v) refl
        (put-IsFree k accounts (a_table accounts_table) v refl free)

  pub entries-IsFree : among k (accounts ∷ []) ≡ false → IsFree k v → IsFree k (after_entries v)
  entries-IsFree p free =
      put-IsFree k ledger_entries (a_table entries_table) (after_keys v) p (tables-IsFree free)

  pub index-IsFree :
      among k (accounts ∷ []) ≡ false
      → among k (ledger_entries ∷ []) ≡ false
      → IsFree k v
      → IsFree k (after_index v)
  index-IsFree p q free =
      put-IsFree k by_account (an_index account_index) (after_entries v) q (entries-IsFree p free)

  pub initial-IsFree :
      among k (accounts ∷ []) ≡ false
      → among k (ledger_entries ∷ []) ≡ false
      → IsFree k v
      → IsFree k (after_initial v)
  initial-IsFree p q free =
      put-IsFree k by_transfer (an_index transfer_index) (after_index v) q (index-IsFree p q free)

module _ (d : Ddl) (v : View) (fresh : IsNew v) where
  open fresh use {
    new_accounts, new_keys, new_entries, new_by_account, new_by_transfer, new_function, new_trigger,
  }

  upgrade_initial-Leads : Leads d (upgrade_initial d) v (after_initial v)
  unfolding upgrade_initial
  upgrade_initial-Leads = Runs-Leads d (
      step (create-Leads d accounts (a_table accounts_table) v new_accounts.0) (
        step (create-Leads d idempotency_keys (a_table keys_table) (after_accounts v) new_keys.0) (
          step (create-Leads d ledger_entries (a_table entries_table) (after_keys v) new_entries.0)
            (step
              (create-Leads d by_account (an_index account_index) (after_entries v)
                new_by_account.0)
              (step
                (create-Leads d by_transfer (an_index transfer_index) (after_index v)
                  new_by_transfer.0)
                done)))))

  -- Nothing needs the table of keys.
  pub keys-IsFree : IsFree idempotency_keys (after_initial v)
  keys-IsFree = initial-IsFree idempotency_keys v refl refl new_keys.1

  altered-IsFree :
      (t : Table)
      → among idempotency_keys (needs (a_table t)) ≡ false
      → IsFree idempotency_keys (put idempotency_keys (some (a_table t)) (after_initial v))
  altered-IsFree t own = put-IsFree idempotency_keys idempotency_keys (a_table t) _ own keys-IsFree

  upgrade_operation-Leads : Leads d (upgrade_operation d) (after_initial v) (after_operation v)
  unfolding upgrade_operation
  upgrade_operation-Leads =
      let keys = idempotency_keys in
      let renamed : View = put keys (some (a_table renamed_table)) (after_initial v) in
      let filled : View = put keys (some (a_table filled_table)) (after_initial v) in
      Runs-Leads d (
        step
          (alter-Leads d "idempotency_keys" (rename_column "transfer_id" "resource_id") keys_table
            renamed_table (after_initial v) refl keys-IsFree refl)
          (step
            (subst (Leads d _ renamed)
              (put-over keys (some (a_table filled_table)) (some (a_table renamed_table))
                (after_initial v))
              (alter-Leads d "idempotency_keys" (add_column operation_column) renamed_table
                filled_table renamed refl (altered-IsFree renamed_table refl) refl))
            (step
              (subst (Leads d _ filled)
                (put-over keys (some (a_table operation_table)) (some (a_table filled_table))
                  (after_initial v))
                (alter-Leads d "idempotency_keys" (set_default "operation" none) filled_table
                  operation_table filled refl (altered-IsFree filled_table refl) refl))
              done)))

  upgrade_conservation-Leads :
      Leads d (upgrade_conservation d) (after_operation v) (after_conservation v)
  unfolding upgrade_conservation
  upgrade_conservation-Leads = Runs-Leads d (
      step (create-Leads d conserves a_function (after_operation v) new_function.0) (
        step
          (create-Leads d conserves_trigger (a_trigger money_trigger) (after_function v)
            new_trigger.0)
          done))

  pub upgrade_head-Leads : Leads d (upgrade_head d) v (after_conservation v)
  unfolding upgrade_head
  upgrade_head-Leads = Runs-Leads d (
      step upgrade_initial-Leads
        (step upgrade_operation-Leads (step upgrade_conservation-Leads done)))
