-- ===== src/Transfers/Calm.antt =====
-- `_lock_accounts` and `_move_money` on a database that nothing disturbs.
use chekin_interview.Base.{
  eq_of_test, ℕ, ◌≡◌, ◌≢◌, refl, sym, ◌∙◌, Bool, ap, inl, inr, true, false, some, List, [], ◌∷◌,
  ◌++◌, ==_refl, ◌==◌, Bool-cases, ◌&&◌, leb,
}
use chekin_interview.Base.Int.{ℤ, pos, ◌+ℤ◌, ◌-ℤ◌, ◌<ℤ◌, ltb_ℤ, cancel_legs}
use chekin_interview.Models.{
  Account, IdempotencyKey, LedgerEntry, Tables, Write, add_key, set_balance, find_account, apply,
  LeavesAccounts,
}
use chekin_interview.Models.Constraints.{
  admits, trigger_passes, conserves_money, leg_sum, numeric_limit,
}
use chekin_interview.Models.Lookup.{find_account-id}
use chekin_interview.Schemas.{Codec, TransferRequest, is_positive_money}
use chekin_interview.Schemas.Limits.{legs-admits}
use chekin_interview.Database.{Engine, All}
use chekin_interview.Database.Exec.{ok}
use chekin_interview.Database.Quiet.{Quiet, IsUnused, AreApart}
use chekin_interview.Idempotency.{Outcome}
use chekin_interview.Transfers.{
  sorted, get_item, legs, or_not_found, lock_each, lock_accounts, or_key_error, move_between,
  move_money,
}
use chekin_interview.Ledger.Invariant.{IsConsistent}
use chekin_interview.Transfers.Moves.{changes, created}
use chekin_interview.Transfers.Sorted.{Listed, Listed-sorted}

get_item-cons :
    (t : Tables) (j : ℕ) (a : Account) (is : List ℕ) (l : List (ℕ × Account)) (i : ℕ)
    → find_account j t.accounts ≡ some a
    → (Listed i is → get_item i l ≡ find_account i t.accounts)
    → Listed i (j ∷ is)
    → get_item i ((j, a) ∷ l) ≡ find_account i t.accounts
unfolding get_item
get_item-cons t j a is l i found items h = elim (Bool-cases (j == i)) [
  | inl p ↦ rw p (sym found ∙ ap (λ k. find_account k t.accounts) (eq_of_test j i p))
  | inr p ↦ rw p (rest p h)
]
  where
    rest : (j == i) ≡ false → Listed i (j ∷ is) → get_item i l ≡ find_account i t.accounts
    rest p (inl q) = cc (p, ==_refl j, q)
    rest p (inr k) = items k

cancel : (x : ℤ) → x +ℤ ((pos 0 -ℤ x) +ℤ pos 0) ≡ pos 0
cancel x = cancel_legs x (pos 0)

-- The two entries of a transfer pass the trigger.
legs-conserve :
    (i : ℕ) (x : ℤ) (d k : LedgerEntry) (entries : List LedgerEntry)
    → d.transfer_id ≡ i
    → k.transfer_id ≡ i
    → d.amount ≡ pos 0 -ℤ x
    → k.amount ≡ x
    → leg_sum i entries ≡ pos 0
    → conserves_money i (k ∷ d ∷ entries) ≡ true
unfolding conserves_money leg_sum
legs-conserve i x d k entries p q m n h = rw (p, q, ==_refl i, m, n, h, cancel x) refl

twice : (b : Bool) → b ≡ true → b && (b && true) ≡ true
twice b h = rw h refl

All-snoc {ℓ κ} :
    {A : Type ℓ} (P : A → Type κ) (l : List A) (x : A) → All P l → P x → All P (l ++ x ∷ [])
All-snoc P [] x h p = (p, tt)
All-snoc P (y ∷ l) x h p = (h.0, All-snoc P l x h.1 p)

module _ (e : Engine) (quiet : Quiet e) (c : Codec) (t : Tables) where
  open e use {Session, ghost}
  open quiet use {Calm}

  abbrev IsThere : ℕ → Type 0
  IsThere i = (a : Account) × (find_account i t.accounts ≡ some a)

  -- The loop of `_lock_accounts` returns the row of each id.
  lock_each-calm :
      (ws : List Write)
      → LeavesAccounts ws
      → (is : List ℕ) (s : Session) → All IsThere is
      → Calm t ws s
      → (l : List (ℕ × Account)) × (u : Session) × (lock_each e c is s ≡ (ok l, u))
        × Calm t ws u
        × ((i : ℕ) → Listed i is → get_item i l ≡ find_account i t.accounts)
  unfolding lock_each or_not_found
  lock_each-calm ws leaves [] s there q = ([], s, refl, q, λ i h. elim h [ ])
  lock_each-calm ws leaves (j ∷ is) s ((a, found), there) q =
      let (u, locked, q1) = quiet.lock_account_calm t ws j s leaves q in
      let (l, v, looped, q2, items) = lock_each-calm ws leaves is u there q1 in
      (
        (j, a) ∷ l,
        v,
        rw (locked, found, looped) refl,
        q2,
        λ i. get_item-cons t j a is l i found (items i),
      )

  module _ (req : TransferRequest) (a b : Account) (claim : IdempotencyKey)
      (valid : is_positive_money req.amount ≡ true) (covered : ltb_ℤ a.balance req.amount ≡ false)
      (fits_a : admits (set_balance a.id a.balance) ≡ true)
      (fits_b : admits (set_balance b.id b.balance) ≡ true)
      (in_range : b.balance +ℤ req.amount <ℤ pos numeric_limit) where
    -- What the move leaves: a 201, and the row changes of the transfer.
    pub record Going (ws : List Write) (o : Outcome) (u : Session) : Type 0 where
      pub transfer_id : ℕ
      pub debit_id : ℕ
      pub credit_id : ℕ
      pub created_at : ℕ
      pub calm :
          Calm t (ws ++ changes e c req claim a b transfer_id debit_id credit_id created_at) u
      pub outcome : o ≡ created e c req a b transfer_id created_at

    changes-admits :
        (transfer_id debit_id credit_id n : ℕ)
        → All (λ w. admits w ≡ true) (changes e c req claim a b transfer_id debit_id credit_id n)
    unfolding admits
    changes-admits transfer_id debit_id credit_id n =
        All-snoc (λ w. admits w ≡ true) (legs debit_id credit_id transfer_id a b req.amount) _
          ((legs-admits debit_id credit_id transfer_id a b req.amount valid fits_a fits_b covered).1
            in_range)
          refl

    changes-IsUnused :
        (transfer_id debit_id credit_id n : ℕ)
        → find_account a.id t.accounts ≡ some a
        → find_account b.id t.accounts ≡ some b
        → All (λ x. x.id ≢ debit_id) t.ledger_entries
        → All (λ x. x.id ≢ credit_id) t.ledger_entries
        → All (IsUnused t) (changes e c req claim a b transfer_id debit_id credit_id n)
    unfolding legs
    changes-IsUnused transfer_id debit_id credit_id n from to debit credit =
        (tt, (tt, (((λ h. cc (h, from)), debit), (((λ h. cc (h, to)), credit), (tt, tt)))))

    -- The claim and the rows of the transfer.
    changes-AreApart :
        (transfer_id debit_id credit_id n : ℕ)
        → debit_id ≢ credit_id
        → AreApart (add_key claim ∷ changes e c req claim a b transfer_id debit_id credit_id n)
    unfolding legs
    changes-AreApart transfer_id debit_id credit_id n differ = (
      (tt, (tt, (tt, (tt, (tt, tt))))),
      (
        (tt, (tt, (tt, (tt, tt)))),
        ((tt, (tt, (tt, tt))), ((differ, (tt, tt)), ((tt, tt), (tt, tt)))),
      ),
    )

    sorted-IsThere :
        find_account req.from_account_id t.accounts ≡ some a
        → find_account req.to_account_id t.accounts ≡ some b
        → All IsThere (sorted (req.from_account_id ∷ req.to_account_id ∷ []))
    unfolding sorted
    sorted-IsThere from to = elim (Bool-cases (leb req.from_account_id req.to_account_id)) [
      | inl p ↦ rw p ((a, from), ((b, to), tt))
      | inr p ↦ rw p ((b, to), ((a, from), tt))
    ]

    -- The row changes before the move.
    abbrev pub begun : List Write
    begun = add_key claim ∷ []

    -- A row that is found has the id that it was asked by.
    known :
        (i : ℕ) (x : Account)
        → find_account i t.accounts ≡ some x
        → find_account x.id t.accounts ≡ some x
    known i x h = ap (λ j. find_account j t.accounts) (find_account-id i x t.accounts h) ∙ h

    move_between-calm :
        (s : Session)
        → find_account a.id t.accounts ≡ some a
        → find_account b.id t.accounts ≡ some b
        → Calm t begun s
        → (o : Outcome) × (u : Session) × (move_between e c claim req a b s ≡ (ok o, u))
          × Going begun o u
    unfolding move_between
    move_between-calm s from to q =
        let q1 = quiet.uuid4_calm t begun s q in
        let (n, u, timed, q2) = quiet.now_calm t begun (e.uuid4 s).1 q1 in
        let q3 = quiet.uuid4_calm t begun u q2 in
        let q4 = quiet.uuid4_calm t begun (e.uuid4 u).1 q3 in
        let transfer_id = (e.uuid4 s).0 in
        let debit_id = (e.uuid4 u).0 in
        let credit_id = (e.uuid4 (e.uuid4 u).1).0 in
        let (v, written, q5) =
          quiet.flush_calm t begun (changes e c req claim a b transfer_id debit_id credit_id n)
            (e.uuid4 (e.uuid4 u).1).1 (changes-admits transfer_id debit_id credit_id n)
            (changes-IsUnused transfer_id debit_id credit_id n from to
              (quiet.uuid4_unused t begun u q2) (quiet.uuid4_unused t begun (e.uuid4 u).1 q3))
            (changes-AreApart transfer_id debit_id credit_id n (quiet.uuid4_differs t begun u q2))
            q4 in
        (
          created e c req a b transfer_id n,
          v,
          rw (covered, timed, written) refl,
          record {
            transfer_id = transfer_id;
            debit_id = debit_id;
            credit_id = credit_id;
            created_at = n;
            calm = q5;
            outcome = refl;
          },
        )

    -- `_move_money` in the transaction that has just claimed its key.
    pub move_money-calm :
        find_account req.from_account_id t.accounts ≡ some a
        → find_account req.to_account_id t.accounts ≡ some b
        → (s : Session) → Calm t begun s
        → (o : Outcome) × (u : Session) × (move_money e c claim req s ≡ (ok o, u)) × Going begun o u
    unfolding move_money lock_accounts or_key_error
    move_money-calm from to s q =
        let ids = req.from_account_id ∷ req.to_account_id ∷ [] in
        let (l, u, locked, q1, items) =
          lock_each-calm begun tt (sorted ids) s (sorted-IsThere from to) q in
        let source = items req.from_account_id (Listed-sorted _ ids (inl refl)) ∙ from in
        let destination = items req.to_account_id (Listed-sorted _ ids (inr (inl refl))) ∙ to in
        let (o, v, moved, going) =
          move_between-calm u (known req.from_account_id a from) (known req.to_account_id b to)
            q1 in
        (o, v, rw (locked, source, destination, moved) refl, going)

    -- The trigger lets the transaction pass, in a ledger whose transfers each sum to zero.
    pub changes-pass :
        IsConsistent t
        → (now transfer_id debit_id credit_id n : ℕ)
        → let ws = add_key claim ∷ changes e c req claim a b transfer_id debit_id credit_id n in
          trigger_passes ws (apply now ws t).ledger_entries ≡ true
    unfolding trigger_passes legs
    changes-pass consistent now transfer_id debit_id credit_id n = twice _ (
        legs-conserve transfer_id req.amount _ _ t.ledger_entries refl refl refl refl
          (consistent.legs_balance transfer_id))
