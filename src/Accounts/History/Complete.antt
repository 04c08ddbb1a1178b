-- ===== src/Accounts/History/Complete.antt =====
-- Nothing is missing from a history: every pair of an account's entry and the other entry of its
-- transfer has its row, as long as the cap is not reached.
use mathlib.Core.Path.{subst}
use chekin_interview.Base.{
  ℕ, zero, suc, ◌≤◌, ◌≡◌, ◌≢◌, refl, ap, sym, ◌∙◌, ◌⊎◌, inl, inr, true, List, [], ◌∷◌, ◌++◌, arith,
  take, length, ◌==◌, ==_refl, Bool-cases,
}
use chekin_interview.Models.{LedgerEntry}
use chekin_interview.Accounts.History.{
  Joined, newer, matches, join_one, join_all, insert_row, order_rows, history_rows,
  max_transactions,
}
use chekin_interview.Accounts.History.Content.{InLedger}

-- A row of a list of rows.
abbrev pub InRows : Joined → List Joined → Type 0
InRows x [] = ⊥
InRows x (y ∷ ys) = (x ≡ y) ⊎ InRows x ys

InRows-append_left : (x : Joined) (xs ys : List Joined) → InRows x xs → InRows x (xs ++ ys)
InRows-append_left x [] ys h = elim h [ ]
InRows-append_left x (y ∷ xs) ys (inl p) = inl p
InRows-append_left x (y ∷ xs) ys (inr h) = inr (InRows-append_left x xs ys h)

InRows-append_right : (x : Joined) (xs ys : List Joined) → InRows x ys → InRows x (xs ++ ys)
InRows-append_right x [] ys h = h
InRows-append_right x (y ∷ xs) ys h = inr (InRows-append_right x xs ys h)

matches_of :
    (mine theirs : LedgerEntry)
    → theirs.transfer_id ≡ mine.transfer_id
    → theirs.id ≢ mine.id
    → matches mine theirs ≡ true
unfolding matches
matches_of mine theirs p q = ground arith

join_one-InRows :
    (mine theirs : LedgerEntry) (rest : List LedgerEntry)
    → InLedger theirs rest
    → matches mine theirs ≡ true
    → InRows (record { mine = mine; theirs = theirs }) (join_one mine rest)
unfolding join_one
join_one-InRows mine theirs [] h m = elim h [ ]
join_one-InRows mine theirs (x ∷ rest) (inl p) m =
    rw (ap (matches mine) (sym p) ∙ m) (inl (ap (λ t. record { mine = mine; theirs = t }) p))
join_one-InRows mine theirs (x ∷ rest) (inr h) m = elim (Bool-cases (matches mine x)) [
  | inl q ↦ rw q (inr (join_one-InRows mine theirs rest h m))
  | inr q ↦ rw q (join_one-InRows mine theirs rest h m)
]

module _ (account_id : ℕ) (entries : List LedgerEntry) where
  join_all-InRows_head :
      (row : Joined) (rest : List LedgerEntry)
      → (row.mine.account_id == account_id) ≡ true
      → InRows row (join_one row.mine entries)
      → InRows row (join_all account_id entries (row.mine ∷ rest))
  unfolding join_all
  join_all-InRows_head row rest on joined =
      rw on (
        InRows-append_left row (join_one row.mine entries) (join_all account_id entries rest)
          joined)

  join_all-InRows :
      (row : Joined) (rest : List LedgerEntry)
      → InLedger row.mine rest
      → row.mine.account_id ≡ account_id
      → InRows row (join_one row.mine entries)
      → InRows row (join_all account_id entries rest)
  unfolding join_all
  join_all-InRows row [] h on joined = elim h [ ]
  join_all-InRows row (x ∷ rest) (inl p) on joined =
      subst (λ m. InRows row (join_all account_id entries (m ∷ rest))) p
        (join_all-InRows_head row rest (ap (λ i. i == account_id) on ∙ ==_refl account_id) joined)
  join_all-InRows row (x ∷ rest) (inr h) on joined =
      elim (Bool-cases (x.account_id == account_id)) [
        | inl q ↦ rw q (
            InRows-append_right row (join_one x entries) (join_all account_id entries rest)
              (join_all-InRows row rest h on joined))
        | inr q ↦ rw q (join_all-InRows row rest h on joined)
      ]

insert_row-InRows_head : (x : Joined) (rows : List Joined) → InRows x (insert_row x rows)
unfolding insert_row
insert_row-InRows_head x [] = inl refl
insert_row-InRows_head x (y ∷ ys) = elim (Bool-cases (newer x.mine y.mine)) [
  | inl p ↦ rw p (inl refl)
  | inr p ↦ rw p (inr (insert_row-InRows_head x ys))
]

insert_row-InRows :
    (x row : Joined) (rows : List Joined) → InRows row rows → InRows row (insert_row x rows)
unfolding insert_row
insert_row-InRows x row [] h = elim h [ ]
insert_row-InRows x row (y ∷ ys) h = elim (Bool-cases (newer x.mine y.mine)) [
  | inl p ↦ rw p (inr h)
  | inr p ↦ rw p (elim h [ inl q ↦ inl q | inr q ↦ inr (insert_row-InRows x row ys q) ])
]

order_rows-InRows :
    (row : Joined) (rows : List Joined) → InRows row rows → InRows row (order_rows rows)
unfolding order_rows
order_rows-InRows row [] h = h
order_rows-InRows row (x ∷ xs) (inl p) = rw p (insert_row-InRows_head x (order_rows xs))
order_rows-InRows row (x ∷ xs) (inr h) =
    insert_row-InRows x row (order_rows xs) (order_rows-InRows row xs h)

take-InRows :
    (n : ℕ) (row : Joined) (rows : List Joined)
    → length rows ≤ n
    → InRows row rows
    → InRows row (take n rows)
take-InRows n row [] h k = elim k [ ]
take-InRows zero row (x ∷ xs) h k = omega (arith, h)
take-InRows (suc n) row (x ∷ xs) h (inl p) = inl p
take-InRows (suc n) row (x ∷ xs) h (inr k) = inr (take-InRows n row xs (omega (arith, h)) k)

-- If an account's joined rows are at most 100, each entry of the account, joined with another entry
-- of the same transfer, has its row in the history.
pub history_rows-InRows :
    (account_id : ℕ) (entries : List LedgerEntry) (row : Joined)
    → length (order_rows (join_all account_id entries entries)) ≤ max_transactions
    → InLedger row.mine entries
    → InLedger row.theirs entries
    → row.mine.account_id ≡ account_id
    → row.theirs.transfer_id ≡ row.mine.transfer_id
    → row.theirs.id ≢ row.mine.id
    → InRows row (history_rows account_id entries)
unfolding history_rows
history_rows-InRows account_id entries row short mine theirs on same other =
    take-InRows max_transactions row (order_rows (join_all account_id entries entries)) short (
      order_rows-InRows row (join_all account_id entries entries) (
        join_all-InRows account_id entries row entries mine on (
          join_one-InRows row.mine row.theirs entries theirs
            (matches_of row.mine row.theirs same other))))
