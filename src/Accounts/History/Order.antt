-- ===== src/Accounts/History/Order.antt =====
-- The history is newest first, and is cut at a hundred rows.
use chekin_interview.Base.{
  ℕ, zero, suc, ◌≤◌, ◌<◌, ◌≡◌, ◌⊎◌, inl, inr, true, false, List, [], ◌∷◌, arith, take, length,
  Bool-cases,
}
use chekin_interview.Models.{LedgerEntry}
use chekin_interview.Accounts.History.{
  Joined, newer, insert_row, order_rows, join_all, history_rows, max_transactions,
}

-- `a` was made after `b`, or at the same time and has no smaller id.
abbrev pub IsNoOlder : LedgerEntry → LedgerEntry → Type 0
IsNoOlder a b = (b.created_at < a.created_at) ⊎ ((b.created_at ≡ a.created_at) × (b.id ≤ a.id))

-- The first row of a list, if there is one, is no newer than `x`.
abbrev pub Leads : Joined → List Joined → Type 0
Leads x [] = Unit
Leads x (y ∷ ys) = IsNoOlder x.mine y.mine

-- Each row is at least as new as the next.
abbrev pub IsNewestFirst : List Joined → Type 0
IsNewestFirst [] = Unit
IsNewestFirst (x ∷ xs) = Leads x xs × IsNewestFirst xs

newer-IsNoOlder : (a b : LedgerEntry) → newer a b ≡ true → IsNoOlder a b
unfolding newer
newer-IsNoOlder a b h = ground arith

newer_total : (a b : LedgerEntry) → newer a b ≡ false → newer b a ≡ true
unfolding newer
newer_total a b h = ground arith

Leads-insert_row :
    (y x : Joined) (rows : List Joined)
    → IsNoOlder y.mine x.mine
    → Leads y rows
    → Leads y (insert_row x rows)
unfolding insert_row
Leads-insert_row y x [] h k = h
Leads-insert_row y x (z ∷ zs) h k = elim (Bool-cases (newer x.mine z.mine)) [
  | inl p ↦ rw p h
  | inr p ↦ rw p k
]

insert_row-IsNewestFirst :
    (x : Joined) (rows : List Joined) → IsNewestFirst rows → IsNewestFirst (insert_row x rows)
unfolding insert_row
insert_row-IsNewestFirst x [] h = (tt, tt)
insert_row-IsNewestFirst x (y ∷ ys) h = elim (Bool-cases (newer x.mine y.mine)) [
  | inl p ↦ rw p (newer-IsNoOlder x.mine y.mine p, h)
  | inr p ↦ rw p (
    Leads-insert_row y x ys (newer-IsNoOlder y.mine x.mine (newer_total x.mine y.mine p)) h.0,
    insert_row-IsNewestFirst x ys h.1,
  )
]

order_rows-IsNewestFirst : (rows : List Joined) → IsNewestFirst (order_rows rows)
unfolding order_rows
order_rows-IsNewestFirst [] = tt
order_rows-IsNewestFirst (x ∷ xs) =
    insert_row-IsNewestFirst x (order_rows xs) (order_rows-IsNewestFirst xs)

Leads-take : (x : Joined) (n : ℕ) (rows : List Joined) → Leads x rows → Leads x (take n rows)
Leads-take x zero rows h = tt
Leads-take x (suc n) [] h = tt
Leads-take x (suc n) (y ∷ ys) h = h

take-IsNewestFirst : (n : ℕ) (rows : List Joined) → IsNewestFirst rows → IsNewestFirst (take n rows)
take-IsNewestFirst zero rows h = tt
take-IsNewestFirst (suc n) [] h = tt
take-IsNewestFirst (suc n) (x ∷ xs) h = (Leads-take x n xs h.0, take-IsNewestFirst n xs h.1)

length-take-le {ℓ} : {A : Type ℓ} (n : ℕ) (l : List A) → length (take n l) ≤ n
length-take-le zero l = omega arith
length-take-le (suc n) [] = omega arith
length-take-le (suc n) (x ∷ xs) = omega (arith, length-take-le n xs)

-- Each row of a history was made after the next one, or at the same time and has no smaller id, and the
-- rows are at most 100.
pub history_rows-order :
    (account_id : ℕ) (entries : List LedgerEntry)
    → IsNewestFirst (history_rows account_id entries)
      × (length (history_rows account_id entries) ≤ max_transactions)
unfolding history_rows
history_rows-order account_id entries =
    let rows = order_rows (join_all account_id entries entries) in
    (
      take-IsNewestFirst max_transactions rows
          (order_rows-IsNewestFirst (join_all account_id entries entries)),
      length-take-le max_transactions rows,
    )
