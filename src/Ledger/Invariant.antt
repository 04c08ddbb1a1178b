-- ===== src/Ledger/Invariant.antt =====
-- The invariant that README.md promises of the tables, and that each step keeps it.
pub mod Legs
pub mod Opened
pub mod Transferred
use mathlib.Core.Path.{subst}
use native.Mathlib.Decide.{ℕ_discrete}
use chekin_interview.Base.{
  ==_refl, ==_ne, ℕ, String, ◌≡◌, ◌≢◌, refl, sym, ◌∙◌, ap, none, some, List, [], ◌∷◌, ◌==◌, inl,
  inr, Bool-cases, str_eq, if◌then◌else◌,
}
use chekin_interview.Base.Int.{
  int_laws, ℤ, pos, ◌+ℤ◌, ◌-ℤ◌, ◌≤ℤ◌, ◌<ℤ◌, cancel_legs, total_moved, debit_reconciles,
  credit_reconciles, sub_nonneg, add_nonneg,
}
use chekin_interview.Json.{Json}
use chekin_interview.Models.{
  Account, LedgerEntry, IdempotencyKey, Tables, find_account, find_key, update_balance,
}
use chekin_interview.Models.Constraints.{leg_sum}
use chekin_interview.Models.Lookup.{
  find_account-update_balance_self, find_account-update_balance_ne, find_key-cons_eq,
  find_key-cons_ne, some_inj,
}
use chekin_interview.Models.Sums.{
  entry_sum, account_sum, account_sum-cons_eq, account_sum-cons_ne, balance_sum, opening_sum,
  balance_sum-update_balance, opening_sum-update_balance,
}
use chekin_interview.Schemas.{TransferRequest, CreateAccountRequest}
use chekin_interview.Ledger.{Answered, IsLeg, TransferStep, OpenStep}

-- One account's row agrees with its entries, and is not overdrawn.
pub record IsHonest (i : ℕ) (entries : List LedgerEntry) (a : Account) : Type 0 where
  pub reconciled : a.balance ≡ a.opening_balance +ℤ account_sum i entries
  pub not_negative : pos 0 ≤ℤ a.balance
  pub opened_not_negative : pos 0 ≤ℤ a.opening_balance

-- No entry is on an account.
abbrev pub HasNoEntry : ℕ → List LedgerEntry → Type 0
HasNoEntry i [] = Unit
HasNoEntry i (e ∷ entries) = (e.account_id ≢ i) × HasNoEntry i entries

pub account_sum-HasNoEntry :
    (i : ℕ) (entries : List LedgerEntry) → HasNoEntry i entries → account_sum i entries ≡ pos 0
unfolding account_sum
account_sum-HasNoEntry i [] h = refl
account_sum-HasNoEntry i (e ∷ entries) h = rw (==_ne h.0) (account_sum-HasNoEntry i entries h.1)

pub record IsConsistent (t : Tables) : Type 0 where
  -- Money is neither created nor destroyed by transfers.
  pub nets_to_zero : entry_sum t.ledger_entries ≡ pos 0
  pub legs_balance : (i : ℕ) → leg_sum i t.ledger_entries ≡ pos 0
  -- What the accounts hold is what they were opened with.
  pub conserved : balance_sum t.accounts ≡ opening_sum t.accounts
  pub honest :
      (i : ℕ) (a : Account) → find_account i t.accounts ≡ some a → IsHonest i t.ledger_entries a
  -- Entries belong to accounts.
  pub no_strays : (i : ℕ) → find_account i t.accounts ≡ none → HasNoEntry i t.ledger_entries
  -- A committed key has its response.
  pub answers :
      (k : String) (r : IdempotencyKey)
      → find_key k t.idempotency_keys ≡ some r
      → (r.response_status ≡ some 201) × (r.response_body ≢ none)

pub IsHonest-at :
    {i j : ℕ} (accounts : List Account) (entries : List LedgerEntry) {a b : Account}
    → j ≡ i
    → find_account j accounts ≡ some b
    → find_account i accounts ≡ some a
    → IsHonest j entries b
    → IsHonest i entries a
IsHonest-at {i} {j} accounts entries {a} {b} p at_j at_i h =
    subst (λ k. IsHonest k entries a) p
      (subst (λ x. IsHonest j entries x)
        (some_inj (sym at_j ∙ ap (λ k. find_account k accounts) p ∙ at_i)) h)

-- A new record that was answered keeps every key answered.
pub answers_after :
    {key operation hash : String} {body : Json} {now : ℕ} (t u : Tables) (claim : IdempotencyKey)
    → Answered key operation hash body now claim
    → u.idempotency_keys ≡ claim ∷ t.idempotency_keys
    → IsConsistent t
    → (k : String) (r : IdempotencyKey) → find_key k u.idempotency_keys ≡ some r
    → (r.response_status ≡ some 201) × (r.response_body ≢ none)
answers_after t u claim answered after h k r found = elim (Bool-cases (str_eq claim.key k)) [
  | inl p ↦
      let same : claim ≡ r = some_inj (
        sym (find_key-cons_eq k claim t.idempotency_keys p)
        ∙ ap (find_key k) (sym after)
        ∙ found) in
      (
        ap (λ (x : IdempotencyKey). x.response_status) (sym same) ∙ answered.status,
        λ lost. cc (answered.response, ap (λ (x : IdempotencyKey). x.response_body) same, lost),
      )
  | inr p ↦
      h.answers k r
        (sym (find_key-cons_ne k claim t.idempotency_keys p) ∙ ap (find_key k) (sym after) ∙ found)
]
