-- ===== src/Accounts/History/Content.antt =====
-- What the items of a history tell: each is one side of a transfer of the account, with the account
-- of the other side.
use chekin_interview.Base.{
  eq_of_test, ℕ, zero, suc, ◌≡◌, ◌≢◌, refl, ◌⊎◌, inl, inr, true, List, [], ◌∷◌, ◌++◌, arith, take,
  ◌==◌, Bool-cases, if◌then◌else◌,
}
use chekin_interview.Base.Int.{pos, ltb_ℤ}
use chekin_interview.Models.{LedgerEntry}
use chekin_interview.Schemas.{TransactionItem}
use chekin_interview.Database.{All}
use chekin_interview.Accounts.History.{
  Joined, newer, matches, join_one, join_all, insert_row, order_rows, history_rows, to_items,
  max_transactions,
}

-- An entry of the ledger.
abbrev pub InLedger : LedgerEntry → List LedgerEntry → Type 0
InLedger x [] = ⊥
InLedger x (y ∷ ys) = (x ≡ y) ⊎ InLedger x ys

-- One of the account's entries, with another entry of its transfer.
pub record IsPair (account_id : ℕ) (entries : List LedgerEntry) (row : Joined) : Type 0 where
  pub mine_listed : InLedger row.mine entries
  pub theirs_listed : InLedger row.theirs entries
  pub on_account : row.mine.account_id ≡ account_id
  pub same_transfer : row.theirs.transfer_id ≡ row.mine.transfer_id
  pub other_entry : row.theirs.id ≢ row.mine.id

-- What an item says of such a pair.
pub record Tells (account_id : ℕ) (entries : List LedgerEntry) (item : TransactionItem)
    : Type 0 where
  pub row : Joined
  pub pair : IsPair account_id entries row
  pub transfer : item.transfer_id ≡ row.mine.transfer_id
  pub signed : item.amount ≡ row.mine.amount
  pub counterparty : item.counterparty_account_id ≡ row.theirs.account_id
  pub time : item.created_at ≡ row.mine.created_at
  pub debit_or_credit : item.direction ≡ (if ltb_ℤ item.amount (pos 0) then "debit" else "credit")

All-append {ℓ κ} :
    {A : Type ℓ} (P : A → Type κ) (xs ys : List A) → All P xs → All P ys → All P (xs ++ ys)
All-append P [] ys h k = k
All-append P (x ∷ xs) ys h k = (h.0, All-append P xs ys h.1 k)

All-take {ℓ κ} : {A : Type ℓ} (P : A → Type κ) (n : ℕ) (xs : List A) → All P xs → All P (take n xs)
All-take P zero xs h = tt
All-take P (suc n) [] h = tt
All-take P (suc n) (x ∷ xs) h = (h.0, All-take P n xs h.1)

matches-true :
    (mine theirs : LedgerEntry)
    → matches mine theirs ≡ true
    → (theirs.transfer_id ≡ mine.transfer_id) × (theirs.id ≢ mine.id)
unfolding matches
matches-true mine theirs h = ground arith

module _ (account_id : ℕ) (entries : List LedgerEntry) where
  join_one-IsPair :
      (mine : LedgerEntry) (rest : List LedgerEntry)
      → InLedger mine entries
      → mine.account_id ≡ account_id
      → ((x : LedgerEntry) → InLedger x rest → InLedger x entries)
      → All (IsPair account_id entries) (join_one mine rest)
  unfolding join_one
  join_one-IsPair mine [] listed on sub = tt
  join_one-IsPair mine (theirs ∷ rest) listed on sub =
      let later = join_one-IsPair mine rest listed on (λ x h. sub x (inr h)) in
      elim (Bool-cases (matches mine theirs)) [
        | inl p ↦ rw p (
          record {
            mine_listed = listed;
            theirs_listed = sub theirs (inl refl);
            on_account = on;
            same_transfer = (matches-true mine theirs p).0;
            other_entry = (matches-true mine theirs p).1;
          },
          later,
        )
        | inr p ↦ rw p later
      ]

  join_all-IsPair :
      (rest : List LedgerEntry)
      → ((x : LedgerEntry) → InLedger x rest → InLedger x entries)
      → All (IsPair account_id entries) (join_all account_id entries rest)
  unfolding join_all
  join_all-IsPair [] sub = tt
  join_all-IsPair (mine ∷ rest) sub =
      let later = join_all-IsPair rest (λ x h. sub x (inr h)) in
      elim (Bool-cases (mine.account_id == account_id)) [
        | inl p ↦ rw p (
            All-append (IsPair account_id entries) (join_one mine entries) _
              (join_one-IsPair mine entries (sub mine (inl refl))
                (eq_of_test mine.account_id account_id p) (λ x h. h))
              later)
        | inr p ↦ rw p later
      ]

  insert_row-All :
      (x : Joined) (rows : List Joined)
      → IsPair account_id entries x
      → All (IsPair account_id entries) rows
      → All (IsPair account_id entries) (insert_row x rows)
  unfolding insert_row
  insert_row-All x [] h k = (h, tt)
  insert_row-All x (y ∷ ys) h k = elim (Bool-cases (newer x.mine y.mine)) [
    | inl p ↦ rw p (h, k)
    | inr p ↦ rw p (k.0, insert_row-All x ys h k.1)
  ]

  order_rows-All :
      (rows : List Joined)
      → All (IsPair account_id entries) rows
      → All (IsPair account_id entries) (order_rows rows)
  unfolding order_rows
  order_rows-All [] h = tt
  order_rows-All (x ∷ xs) h = insert_row-All x (order_rows xs) h.0 (order_rows-All xs h.1)

  to_items-Tells :
      (rows : List Joined)
      → All (IsPair account_id entries) rows
      → All (Tells account_id entries) (to_items rows)
  unfolding to_items
  to_items-Tells [] h = tt
  to_items-Tells (row ∷ rows) h = (
    record {
      row = row;
      pair = h.0;
      transfer = refl;
      signed = refl;
      counterparty = refl;
      time = refl;
      debit_or_credit = refl;
    },
    to_items-Tells rows h.1,
  )

  -- Each item of a history is one entry of the account, signed, and names the account of another
  -- entry of the same transfer; it is a debit exactly if its amount is negative.
  pub history-Tells : All (Tells account_id entries) (to_items (history_rows account_id entries))
  unfolding history_rows
  history-Tells =
      let rows = join_all account_id entries entries in
      to_items-Tells (take max_transactions (order_rows rows)) (
        All-take (IsPair account_id entries) max_transactions (order_rows rows)
          (order_rows-All rows (join_all-IsPair entries (λ x h. h))))
