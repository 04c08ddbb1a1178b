-- ===== src/Ledger/Invariant/Transferred.antt =====
-- A transfer keeps the invariant.
use native.Mathlib.Decide.{ℕ_discrete}
use chekin_interview.Base.{ℕ, String, ◌≡◌, ◌≢◌, sym, ◌∙◌, ap, none, some}
use chekin_interview.Base.Int.{
  pos, ◌+ℤ◌, ◌-ℤ◌, ◌<ℤ◌, total_moved, debit_reconciles, credit_reconciles, sub_nonneg, add_nonneg,
}
use chekin_interview.Json.{Json}
use chekin_interview.Models.{Account, Tables, find_account, update_balance}
use chekin_interview.Models.Lookup.{
  find_account-update_balance_self, find_account-update_balance_ne,
}
use chekin_interview.Models.Sums.{
  account_sum, balance_sum, opening_sum, balance_sum-update_balance, opening_sum-update_balance,
}
use chekin_interview.Schemas.{TransferRequest}
use chekin_interview.Ledger.{TransferStep}
use chekin_interview.Ledger.Invariant.{
  IsHonest, IsConsistent, IsHonest-at, answers_after, HasNoEntry,
}
use chekin_interview.Ledger.Invariant.Legs.{
  entry_sum-legs, leg_sum-legs, account_sum-source, account_sum-destination, account_sum-other,
}

module _ {key hash : String} {req : TransferRequest} {body : Json} {t u : Tables}
    (st : TransferStep key hash req body t u) (positive : pos 0 <ℤ req.amount)
    (h : IsConsistent t) where
  conserved_after : balance_sum u.accounts ≡ opening_sum u.accounts
  conserved_after = rw st.accounts_after (
      total_moved (balance_sum t.accounts)
        (balance_sum
          (update_balance req.from_account_id (st.source.balance -ℤ req.amount) t.accounts))
        _ st.source.balance st.destination.balance req.amount
        (balance_sum-update_balance req.from_account_id (st.source.balance -ℤ req.amount) st.source
          t.accounts st.source_row)
        (balance_sum-update_balance req.to_account_id (st.destination.balance +ℤ req.amount)
          st.destination
          (update_balance req.from_account_id (st.source.balance -ℤ req.amount) t.accounts)
          (find_account-update_balance_ne req.from_account_id req.to_account_id
              (st.source.balance -ℤ req.amount) t.accounts st.distinct
            ∙ st.destination_row))
      ∙ h.conserved
      ∙ sym (
          opening_sum-update_balance req.from_account_id (st.source.balance -ℤ req.amount)
            t.accounts)
      ∙ sym (opening_sum-update_balance req.to_account_id (st.destination.balance +ℤ req.amount) _))

  -- The accounts after the step, by id.
  source_found :
      find_account req.from_account_id u.accounts
      ≡ some (record st.source { balance = st.source.balance -ℤ req.amount })
  source_found = rw st.accounts_after (
      find_account-update_balance_ne req.to_account_id req.from_account_id _ _
        (λ p. st.distinct (sym p))
      ∙ find_account-update_balance_self req.from_account_id _ st.source t.accounts st.source_row)

  destination_found :
      find_account req.to_account_id u.accounts
      ≡ some (record st.destination { balance = st.destination.balance +ℤ req.amount })
  destination_found = rw st.accounts_after (
      find_account-update_balance_self req.to_account_id _ st.destination _ (
        find_account-update_balance_ne req.from_account_id req.to_account_id _ t.accounts
          st.distinct
        ∙ st.destination_row))

  other_found :
      (i : ℕ)
      → req.from_account_id ≢ i
      → req.to_account_id ≢ i
      → find_account i u.accounts ≡ find_account i t.accounts
  other_found i ne ne' = rw st.accounts_after (
      find_account-update_balance_ne req.to_account_id i _ _ ne'
      ∙ find_account-update_balance_ne req.from_account_id i _ t.accounts ne)

  IsHonest-source :
      IsHonest req.from_account_id u.ledger_entries
        (record st.source { balance = st.source.balance -ℤ req.amount })
  IsHonest-source =
      let old = h.honest req.from_account_id st.source st.source_row in
      record {
        reconciled =
            rw
              (
                st.entries_after,
                account_sum-source st.debited st.credited t.ledger_entries st.distinct,
              )
              (debit_reconciles st.source.balance st.source.opening_balance
                (account_sum req.from_account_id t.ledger_entries) req.amount old.reconciled);
        not_negative = sub_nonneg st.source.balance req.amount st.covered;
        opened_not_negative = old.opened_not_negative;
      }

  IsHonest-destination :
      IsHonest req.to_account_id u.ledger_entries
        (record st.destination { balance = st.destination.balance +ℤ req.amount })
  IsHonest-destination =
      let old = h.honest req.to_account_id st.destination st.destination_row in
      record {
        reconciled =
            rw
              (
                st.entries_after,
                account_sum-destination st.debited st.credited t.ledger_entries st.distinct,
              )
              (credit_reconciles st.destination.balance st.destination.opening_balance
                (account_sum req.to_account_id t.ledger_entries) req.amount old.reconciled);
        not_negative = add_nonneg st.destination.balance req.amount old.not_negative positive;
        opened_not_negative = old.opened_not_negative;
      }

  account_sum-kept :
      (i : ℕ)
      → req.from_account_id ≢ i
      → req.to_account_id ≢ i
      → account_sum i u.ledger_entries ≡ account_sum i t.ledger_entries
  account_sum-kept i ne ne' =
      rw st.entries_after (account_sum-other st.debited st.credited t.ledger_entries i ne ne')

  IsHonest-after :
      (i : ℕ) (a : Account) → find_account i u.accounts ≡ some a → IsHonest i u.ledger_entries a
  IsHonest-after i a found = elim (ℕ_discrete req.from_account_id i) [
    | yes p ↦ IsHonest-at u.accounts u.ledger_entries p source_found found IsHonest-source
    | no p ↦ elim (ℕ_discrete req.to_account_id i) [
      | yes q ↦
          IsHonest-at u.accounts u.ledger_entries q destination_found found IsHonest-destination
      | no q ↦
          let old = h.honest i a (sym (other_found i p q) ∙ found) in
          record {
            reconciled = rw (account_sum-kept i p q) old.reconciled;
            not_negative = old.not_negative;
            opened_not_negative = old.opened_not_negative;
          }
    ]
  ]

  no_strays_after : (i : ℕ) → find_account i u.accounts ≡ none → HasNoEntry i u.ledger_entries
  no_strays_after i missing =
      let p : req.from_account_id ≢ i =
        λ p. cc (source_found, missing, ap (λ k. find_account k u.accounts) p) in
      let q : req.to_account_id ≢ i =
        λ q. cc (destination_found, missing, ap (λ k. find_account k u.accounts) q) in
      rw st.entries_after (
        λ r. q (sym st.credited.on_account ∙ r),
        (
          (λ r. p (sym st.debited.on_account ∙ r)),
          h.no_strays i (sym (other_found i p q) ∙ missing),
        ),
      )

  -- A transfer keeps the invariant.
  pub TransferStep-IsConsistent : IsConsistent u
  TransferStep-IsConsistent = record {
    nets_to_zero =
        rw (st.entries_after, entry_sum-legs st.debited st.credited t.ledger_entries)
          h.nets_to_zero;
    legs_balance = λ i.
        rw (st.entries_after, leg_sum-legs st.debited st.credited t.ledger_entries i)
          (h.legs_balance i);
    conserved = conserved_after;
    honest = IsHonest-after;
    no_strays = no_strays_after;
    answers = answers_after t u st.claim st.answered st.keys_after h;
  }
