-- ===== src/Tests/MigrationWitness.antt =====
-- The migrations on an empty catalog, kept in memory.
use chekin_interview.Base.{String, ◌≡◌, refl, sym, ap, Option, none, some}
use chekin_interview.Models.Lookup.{some_inj}
use chekin_interview.Migrations.Catalog.{
  Key, table_key, Object, a_table, a_function, a_trigger, Table, View, put, Alteration, altered,
  Ddl,
}
use chekin_interview.Migrations.Revisions.{
  accounts, idempotency_keys, ledger_entries, by_account, by_transfer, money_trigger, conserves,
  conserves_trigger, upgrade_head, downgrade_base,
}
use chekin_interview.Migrations.Chain.{IsUnused, IsNew}
use chekin_interview.Migrations.Back.{downgrade_base-upgrade_head}
use chekin_interview.Migrations.Metadata.{metadata, HasTables, upgrade_head-HasTables}

abbrev in_place : String → View → Option Table → Option View
in_place n v none = none
in_place n v (some t) = some (put (table_key n) (some (a_table t)) v)

abbrev alter_object : String → Alteration → View → Option Object → Option View
alter_object n a v (some (a_table t)) = in_place n v (altered a t)
alter_object n a v _ = none

alter_view : String → Alteration → View → Option View
alter_view n a v = alter_object n a v (v (table_key n))

-- What an alteration that was not refused has made of the names.
alter_view-put :
    (n : String) (a : Alteration) (t t' : Table) (v w : View)
    → v (table_key n) ≡ some (a_table t)
    → altered a t ≡ some t'
    → alter_view n a v ≡ some w
    → w ≡ put (table_key n) (some (a_table t')) v
unfolding alter_view
alter_view-put n a t t' v w has makes ran = sym (some_inj (rw (has, makes) at ran))

abbrev names : Ddl
names = record {
  Catalog = View;
  lookup = λ v. v;
  create = λ k o v. some (put k (some o) v);
  drop = λ k v. some (put k none v);
  alter = alter_view;
  create_makes = λ k o v w unused ran j. ap (λ (u : View). u j) (sym (some_inj ran));
  drop_removes = λ k v w present free ran j. ap (λ (u : View). u j) (sym (some_inj ran));
  alter_changes = λ n a t t' v w has free makes ran j.
      ap (λ (u : View). u j) (alter_view-put n a t t' v w has makes ran);
}

abbrev nothing : View
nothing k = none

unused : (k : Key) → IsUnused k nothing
unused k = (refl, λ j o h. cc h)

nothing-IsNew : IsNew nothing
nothing-IsNew = record {
  new_accounts = unused accounts;
  new_keys = unused idempotency_keys;
  new_entries = unused ledger_entries;
  new_by_account = unused by_account;
  new_by_transfer = unused by_transfer;
  new_function = unused conserves;
  new_trigger = unused conserves_trigger;
}

abbrev reached : Option View → View
reached none = nothing
reached (some v) = v

abbrev head : View
head = reached (upgrade_head names nothing)

abbrev base : View
base = reached (downgrade_base names head)

upgrade_ran : upgrade_head names nothing ≡ some head
unfolding upgrade_head alter_view
upgrade_ran = refl

downgrade_ran : downgrade_base names head ≡ some base
unfolding downgrade_base upgrade_head alter_view
downgrade_ran = refl

upgrade_head-HasTables_example :
    HasTables metadata head
    × (head conserves_trigger ≡ some (a_trigger money_trigger))
    × (head conserves ≡ some a_function)
upgrade_head-HasTables_example = upgrade_head-HasTables names nothing head nothing-IsNew upgrade_ran

downgrade_base-upgrade_head_example : base accounts ≡ none
downgrade_base-upgrade_head_example =
    downgrade_base-upgrade_head names nothing head base nothing-IsNew upgrade_ran downgrade_ran
      accounts
