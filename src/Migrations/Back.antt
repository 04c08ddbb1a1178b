-- ===== src/Migrations/Back.antt =====
-- Each downgrade gives every name of the catalog back what it was before the upgrade.
use mathlib.Core.Path.{subst}
use chekin_interview.Base.{◌≡◌, refl, ap, some}
use chekin_interview.Migrations.Catalog.{
  Key, a_table, an_index, a_function, a_trigger, View, put, IsFree, rename_column, drop_column, Ddl,
}
use chekin_interview.Migrations.Revisions.{
  accounts, idempotency_keys, ledger_entries, by_account, by_transfer, conserves, conserves_trigger,
  accounts_table, keys_table, entries_table, account_index, transfer_index, money_trigger,
  upgrade_head, downgrade_initial, downgrade_operation, downgrade_conservation, downgrade_base,
}
use chekin_interview.Migrations.Steps.{
  put-put, put-IsFree, Leads, done, step, Runs-Leads, drop-Leads, alter-Leads,
}
use chekin_interview.Migrations.Chain.{
  IsNew, renamed_table, operation_table, after_accounts, after_keys, after_entries, after_index,
  after_initial, after_operation, after_function, after_conservation, put-over, tables-IsFree,
  entries-IsFree, index-IsFree, initial-IsFree, keys-IsFree, upgrade_head-Leads,
}

module _ (d : Ddl) (v : View) (fresh : IsNew v) where
  open fresh use {
    new_accounts, new_keys, new_entries, new_by_account, new_by_transfer, new_function, new_trigger,
  }

  downgrade_initial-Leads : Leads d (downgrade_initial d) (after_initial v) v
  unfolding downgrade_initial
  downgrade_initial-Leads = Runs-Leads d (
      step
        (drop-Leads d by_transfer (an_index transfer_index) (after_index v) new_by_transfer.0
          (initial-IsFree by_transfer v refl refl new_by_transfer.1))
        (step
          (drop-Leads d by_account (an_index account_index) (after_entries v) new_by_account.0
            (index-IsFree by_account v refl refl new_by_account.1))
          (step
            (drop-Leads d ledger_entries (a_table entries_table) (after_keys v) new_entries.0
              (entries-IsFree ledger_entries v refl new_entries.1))
            (step
              (drop-Leads d idempotency_keys (a_table keys_table) (after_accounts v) new_keys.0
                (tables-IsFree idempotency_keys v new_keys.1))
              (step
                (drop-Leads d accounts (a_table accounts_table) v new_accounts.0
                  (put-IsFree accounts accounts (a_table accounts_table) v refl new_accounts.1))
                done)))))

  downgrade_operation-Leads : Leads d (downgrade_operation d) (after_operation v) (after_initial v)
  unfolding downgrade_operation
  downgrade_operation-Leads =
      let keys = idempotency_keys in
      let renamed : View = put keys (some (a_table renamed_table)) (after_initial v) in
      let free = keys-IsFree d v fresh in
      Runs-Leads d (
        step
          (subst (Leads d _ (after_operation v))
            (put-over keys (some (a_table renamed_table)) (some (a_table operation_table))
              (after_initial v))
            (alter-Leads d "idempotency_keys" (drop_column "operation") operation_table
              renamed_table (after_operation v) refl
              (put-IsFree keys keys (a_table operation_table) (after_initial v) refl free) refl))
          (step
            (subst (Leads d _ renamed)
              (put-put keys (some (a_table keys_table)) (some (a_table renamed_table))
                (after_initial v) refl)
              (alter-Leads d "idempotency_keys" (rename_column "resource_id" "transfer_id")
                renamed_table keys_table renamed refl
                (put-IsFree keys keys (a_table renamed_table) (after_initial v) refl free) refl))
            done))

  operation-IsFree : (k : Key) → IsFree k (after_initial v) → IsFree k (after_operation v)
  operation-IsFree k free =
      put-IsFree k idempotency_keys (a_table operation_table) (after_initial v) refl free

  function-IsFree : (k : Key) → IsFree k (after_initial v) → IsFree k (after_function v)
  function-IsFree k free =
      put-IsFree k conserves a_function (after_operation v) refl (operation-IsFree k free)

  downgrade_conservation-Leads :
      Leads d (downgrade_conservation d) (after_conservation v) (after_operation v)
  unfolding downgrade_conservation
  downgrade_conservation-Leads = Runs-Leads d (
      step
        (drop-Leads d conserves_trigger (a_trigger money_trigger) (after_function v) new_trigger.0 (
          put-IsFree conserves_trigger conserves_trigger (a_trigger money_trigger)
            (after_function v) refl
            (function-IsFree conserves_trigger
              (initial-IsFree conserves_trigger v refl refl new_trigger.1))))
        (step
          (drop-Leads d conserves a_function (after_operation v) new_function.0
            (function-IsFree conserves (initial-IsFree conserves v refl refl new_function.1)))
          done))

  downgrade_base-Leads : Leads d (downgrade_base d) (after_conservation v) v
  unfolding downgrade_base
  downgrade_base-Leads = Runs-Leads d (
      step downgrade_conservation-Leads
        (step downgrade_operation-Leads (step downgrade_initial-Leads done)))

-- On a catalog that has nothing of the ledger's names, and nothing that refers to them: if the three
-- upgrades run, and then the three downgrades, every name names what it did before.
pub downgrade_base-upgrade_head :
    (d : Ddl) (s head base : d.Catalog)
    → IsNew (d.lookup s)
    → upgrade_head d s ≡ some head
    → downgrade_base d head ≡ some base
    → (k : Key) → d.lookup base k ≡ d.lookup s k
downgrade_base-upgrade_head d s head base fresh up down k =
    ap (λ v. v k)
      (downgrade_base-Leads d (d.lookup s) fresh head base
        (upgrade_head-Leads d (d.lookup s) fresh s head refl up) down)
