-- ===== src/Ledger/Invariant/Legs.antt =====
-- How the aggregates of the entries change by the two legs of a transfer.
use native.Mathlib.Decide.{ℕ_discrete}
use chekin_interview.Base.{==_refl, ==_ne, ℕ, ◌≡◌, ◌≢◌, refl, sym, ◌∙◌, ap, List, ◌∷◌}
use chekin_interview.Base.Int.{ℤ, pos, ◌+ℤ◌, ◌-ℤ◌, cancel_legs}
use chekin_interview.Models.{LedgerEntry}
use chekin_interview.Models.Constraints.{leg_sum}
use chekin_interview.Models.Sums.{entry_sum, account_sum, account_sum-cons_eq, account_sum-cons_ne}
use chekin_interview.Ledger.{IsLeg}

module _ {src dst transfer_id now : ℕ} {amount : ℤ} {debit credit : LedgerEntry}
    (d : IsLeg src transfer_id (pos 0 -ℤ amount) now debit)
    (c : IsLeg dst transfer_id amount now credit) (entries : List LedgerEntry) where
  pub entry_sum-legs : entry_sum (credit ∷ debit ∷ entries) ≡ entry_sum entries
  unfolding entry_sum
  entry_sum-legs = rw (d.signed, c.signed) (cancel_legs amount (entry_sum entries))

  pub leg_sum-legs : (i : ℕ) → leg_sum i (credit ∷ debit ∷ entries) ≡ leg_sum i entries
  unfolding leg_sum
  leg_sum-legs i = elim (ℕ_discrete transfer_id i) [
    | yes p ↦
        rw (d.signed, c.signed, d.of_transfer, c.of_transfer, p, ==_refl i)
          (cancel_legs amount (leg_sum i entries))
    | no p ↦ rw (d.of_transfer, c.of_transfer, ==_ne p) refl
  ]

  pub account_sum-source :
      src ≢ dst
      → account_sum src (credit ∷ debit ∷ entries) ≡ (pos 0 -ℤ amount) +ℤ account_sum src entries
  account_sum-source ne =
      account_sum-cons_ne src credit (debit ∷ entries) (λ p. ne (sym p ∙ c.on_account))
      ∙ account_sum-cons_eq src debit entries d.on_account
      ∙ ap (λ x. x +ℤ account_sum src entries) d.signed

  pub account_sum-destination :
      src ≢ dst → account_sum dst (credit ∷ debit ∷ entries) ≡ amount +ℤ account_sum dst entries
  account_sum-destination ne =
      account_sum-cons_eq dst credit (debit ∷ entries) c.on_account
      ∙ ap (λ x. x +ℤ account_sum dst (debit ∷ entries)) c.signed
      ∙ ap (λ x. amount +ℤ x)
          (account_sum-cons_ne dst debit entries (λ p. ne (sym d.on_account ∙ p)))

  pub account_sum-other :
      (i : ℕ) → src ≢ i → dst ≢ i → account_sum i (credit ∷ debit ∷ entries) ≡ account_sum i entries
  account_sum-other i ne ne' =
      account_sum-cons_ne i credit (debit ∷ entries) (λ p. ne' (sym c.on_account ∙ p))
      ∙ account_sum-cons_ne i debit entries (λ p. ne (sym d.on_account ∙ p))
