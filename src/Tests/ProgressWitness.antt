-- ===== src/Tests/ProgressWitness.antt =====
-- The progress of a transfer at a concrete input.
use mathlib.Core.Path.{subst}
use chekin_interview.Base.{
  ℕ, ◌≡◌, refl, inl, inr, true, some, none, [], arith, ◌==◌, ◌&&◌, Bool-cases, ◌≤◌, ◌∷◌,
}
use chekin_interview.Base.Int.{pos, ◌+ℤ◌, ◌<ℤ◌, int_laws}
use chekin_interview.Models.{Account, find_account, find_key}
use chekin_interview.Models.Constraints.{
  admits, leg_sum, fits_money, is_non_negative, numeric_limit,
}
use chekin_interview.Models.Lookup.{some_inj}
use chekin_interview.Models.Sums.{entry_sum, account_sum, balance_sum, opening_sum}
use chekin_interview.Schemas.{is_positive_money, dump_transfer_request}
use chekin_interview.Database.Exec.{ok}
use chekin_interview.Ledger.Invariant.{IsConsistent, IsHonest}
use chekin_interview.Memory.{Memory}
use chekin_interview.Base.Text.{text_length}
use chekin_interview.Idempotency.{fingerprint}
use chekin_interview.Idempotency.Key.{require_key}
use chekin_interview.Api.{Response, post_transfers}
use chekin_interview.Api.Succeeds.{post_transfers-succeeds}
use chekin_interview.Memory.Laws.{memory}
use chekin_interview.Memory.Calm.{memory-Quiet, calm_of_no_events}
use chekin_interview.Tests.{codec, account, bank, session, runs}
use chekin_interview.Tests.Samples.{first_request}

-- A row of the bank is as it was opened.
account-IsHonest : (i n j : ℕ) → IsHonest i [] (account j n)
unfolding account_sum
account-IsHonest i n j = record {
  reconciled = omega int_laws;
  not_negative = omega arith;
  opened_not_negative = omega arith;
}

bank-IsConsistent : IsConsistent bank
unfolding entry_sum leg_sum account_sum balance_sum opening_sum find_account find_key
bank-IsConsistent = record {
  nets_to_zero = refl;
  legs_balance = λ i. refl;
  conserved = refl;
  honest = λ i a h. row i a h;
  no_strays = λ i h. tt;
  answers = λ k r h. cc h;
}
  where
    row : (i : ℕ) (a : Account) → find_account i bank.accounts ≡ some a → IsHonest i [] a
    row i a h = elim (Bool-cases (9 == i)) [
      | inl p ↦ subst (IsHonest i []) (some_inj (rw p at h)) (account-IsHonest i 500000 9)
      | inr p ↦ elim (Bool-cases (4 == i)) [
        | inl q ↦ subst (IsHonest i []) (some_inj (rw (p, q) at h)) (account-IsHonest i 0 4)
        | inr q ↦ cc (rw (p, q) at h)
      ]
    ]

source_row : find_account 9 bank.accounts ≡ some (account 9 500000)
unfolding find_account
source_row = refl

destination_row : find_account 4 bank.accounts ≡ some (account 4 0)
unfolding find_account
destination_row = refl

unused_key : find_key "k1" bank.idempotency_keys ≡ none
unfolding find_key
unused_key = refl

valid_amount : is_positive_money first_request.amount ≡ true
unfolding is_positive_money
valid_amount = refl

source_fits : fits_money (pos 500000) && is_non_negative (pos 500000) ≡ true
unfolding fits_money is_non_negative
source_fits = refl

destination_fits : fits_money (pos 0) && is_non_negative (pos 0) ≡ true
unfolding fits_money is_non_negative
destination_fits = refl

in_range : pos 0 +ℤ pos 125000 <ℤ pos numeric_limit
unfolding ◌+ℤ◌
in_range = omega arith

sent_key : require_key (some "k1") ≡ ok "k1"
unfolding require_key
sent_key = refl

hash_fits : text_length (fingerprint codec (dump_transfer_request codec first_request)) ≤ 64
unfolding runs
hash_fits = omega arith

post_transfers-succeeds_example :
    (r : Response) × (u : Memory) × (post_transfers memory codec [] first_request
        (some "k1")
        (session bank [])
      ≡ (ok r, u))
    × (r.status ≡ 201)
    × (r.headers ≡ ("Idempotent-Replay", "false") ∷ [])
unfolding admits
post_transfers-succeeds_example =
    post_transfers-succeeds memory memory-Quiet codec bank [] "k1" "k1" first_request
      (account 9 500000) (account 4 0) (session bank [])
      (calm_of_no_events (session bank []) refl tt) bank-IsConsistent sent_key unused_key hash_fits
      (λ h. omega (arith, h)) valid_amount source_row destination_row source_fits destination_fits
      refl in_range
