-- ===== src/Accounts/History.antt =====
-- `list_transactions` of app/services/accounts.py: the history of one account, by a self-join of the
-- ledger.
pub mod Order
pub mod Content
pub mod Complete
use chekin_interview.Base.{
  ℕ, String, Bool, true, false, not, ◌&&◌, ◌||◌, Option, none, some, List, [], ◌∷◌, ◌++◌, ltb, leb,
  ◌==◌, take, if◌then◌else◌,
}
use chekin_interview.Base.Int.{ℤ, pos, ltb_ℤ}
use chekin_interview.Models.{LedgerEntry}
use chekin_interview.Schemas.{Codec, TransactionItem}
use chekin_interview.Database.{Engine}
use chekin_interview.Database.Exec.{Exec, pure, ◌>>=◌, ◌>>◌}
use chekin_interview.Accounts.{read_account}

abbrev pub max_transactions : ℕ
max_transactions = 100

-- An entry of the account with the entry of the other side.
pub record Joined : Type 0 where
  pub mine : LedgerEntry
  pub theirs : LedgerEntry

-- `theirs.transfer_id == mine.transfer_id and theirs.id != mine.id`
unfoldable pub matches : LedgerEntry → LedgerEntry → Bool
matches mine theirs = (theirs.transfer_id == mine.transfer_id) && not (theirs.id == mine.id)

-- The join of one entry with all others.
unfoldable pub join_one : LedgerEntry → List LedgerEntry → List Joined
unfolding matches
join_one mine [] = []
join_one mine (theirs ∷ rest) =
    if matches mine theirs
    then record { mine = mine; theirs = theirs } ∷ join_one mine rest
    else join_one mine rest

-- The joined rows with `mine.account_id == account_id`.
unfoldable pub join_all : ℕ → List LedgerEntry → List LedgerEntry → List Joined
unfolding join_one
join_all account_id entries [] = []
join_all account_id entries (mine ∷ rest) =
    if mine.account_id == account_id
    then join_one mine entries ++ join_all account_id entries rest
    else join_all account_id entries rest

-- `order_by(mine.created_at.desc(), mine.id.desc())`
unfoldable pub newer : LedgerEntry → LedgerEntry → Bool
newer a b = ltb b.created_at a.created_at || ((a.created_at == b.created_at) && leb b.id a.id)

unfoldable pub insert_row : Joined → List Joined → List Joined
unfolding newer
insert_row x [] = x ∷ []
insert_row x (y ∷ ys) = if newer x.mine y.mine then x ∷ y ∷ ys else y ∷ insert_row x ys

unfoldable pub order_rows : List Joined → List Joined
unfolding insert_row
order_rows [] = []
order_rows (x ∷ xs) = insert_row x (order_rows xs)

-- The rows of the query.
unfoldable pub history_rows : ℕ → List LedgerEntry → List Joined
unfolding join_all order_rows
history_rows account_id entries =
    take max_transactions (order_rows (join_all account_id entries entries))

unfoldable pub to_item : Joined → TransactionItem
to_item row = record {
  transfer_id = row.mine.transfer_id;
  amount = row.mine.amount;
  direction = if ltb_ℤ row.mine.amount (pos 0) then "debit" else "credit";
  counterparty_account_id = row.theirs.account_id;
  created_at = row.mine.created_at;
}

unfoldable pub to_items : List Joined → List TransactionItem
unfolding to_item
to_items [] = []
to_items (row ∷ rows) = to_item row ∷ to_items rows

module _ (e : Engine) (c : Codec) where
  open e use {Session, select_entries}

  -- `list_transactions`
  unfoldable pub list_transactions : ℕ → Exec Session (List TransactionItem)
  unfolding history_rows to_items
  list_transactions account_id = do
    read_account e c account_id
    entries ← select_entries
    pure (to_items (history_rows account_id entries))
