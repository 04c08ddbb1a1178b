-- ===== src/Models/Sums.antt =====
-- The aggregates that the ledger is reconciled by, and what each row change does to them.
use chekin_interview.Base.{ℕ, ◌≡◌, ◌≢◌, refl, List, [], ◌∷◌, some, arith, ◌==◌, if◌then◌else◌}
use chekin_interview.Base.Int.{ℤ, pos, ◌+ℤ◌, int_laws}
use chekin_interview.Models.{Account, LedgerEntry, find_account, update_balance}

-- `SELECT SUM(amount) FROM ledger_entries`
unfoldable pub entry_sum : List LedgerEntry → ℤ
entry_sum [] = pos 0
entry_sum (e ∷ rest) = e.amount +ℤ entry_sum rest

-- The sum of one account's entries.
unfoldable pub account_sum : ℕ → List LedgerEntry → ℤ
account_sum i [] = pos 0
account_sum i (e ∷ rest) =
    if e.account_id == i then e.amount +ℤ account_sum i rest else account_sum i rest

-- `SELECT SUM(balance) FROM accounts`
unfoldable pub balance_sum : List Account → ℤ
balance_sum [] = pos 0
balance_sum (a ∷ rest) = a.balance +ℤ balance_sum rest

-- `SELECT SUM(opening_balance) FROM accounts`
unfoldable pub opening_sum : List Account → ℤ
opening_sum [] = pos 0
opening_sum (a ∷ rest) = a.opening_balance +ℤ opening_sum rest

pub balance_sum-update_balance :
    (i : ℕ) (v : ℤ) (a : Account) (l : List Account)
    → find_account i l ≡ some a
    → balance_sum (update_balance i v l) +ℤ a.balance ≡ balance_sum l +ℤ v
unfolding find_account update_balance balance_sum
balance_sum-update_balance i v a [] h = cc
balance_sum-update_balance i v a (x ∷ l) h = grind (int_laws, balance_sum-update_balance i v a l)

pub opening_sum-update_balance :
    (i : ℕ) (v : ℤ) (l : List Account) → opening_sum (update_balance i v l) ≡ opening_sum l
unfolding update_balance opening_sum
opening_sum-update_balance i v [] = refl
opening_sum-update_balance i v (x ∷ l) = ground (arith, opening_sum-update_balance i v l)

pub account_sum-cons_eq :
    (i : ℕ) (e : LedgerEntry) (rest : List LedgerEntry)
    → e.account_id ≡ i
    → account_sum i (e ∷ rest) ≡ e.amount +ℤ account_sum i rest
unfolding account_sum
account_sum-cons_eq i e rest h = ground arith

pub account_sum-cons_ne :
    (i : ℕ) (e : LedgerEntry) (rest : List LedgerEntry)
    → e.account_id ≢ i
    → account_sum i (e ∷ rest) ≡ account_sum i rest
unfolding account_sum
account_sum-cons_ne i e rest h = ground arith
