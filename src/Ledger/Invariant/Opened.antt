-- ===== src/Ledger/Invariant/Opened.antt =====
-- Opening an account keeps the invariant.
use native.Mathlib.Decide.{ℕ_discrete}
use chekin_interview.Base.{
  ==_refl, ==_ne, ℕ, String, ◌≡◌, sym, ◌∙◌, ap, none, some, ◌==◌, if◌then◌else◌,
}
use chekin_interview.Base.Int.{int_laws, pos, ◌≤ℤ◌}
use chekin_interview.Json.{Json}
use chekin_interview.Models.{Account, Tables, find_account}
use chekin_interview.Models.Sums.{balance_sum, opening_sum}
use chekin_interview.Schemas.{CreateAccountRequest}
use chekin_interview.Ledger.{OpenStep}
use chekin_interview.Ledger.Invariant.{
  IsHonest, IsConsistent, IsHonest-at, answers_after, HasNoEntry, account_sum-HasNoEntry,
}

module _ {key hash : String} {req : CreateAccountRequest} {body : Json} {t u : Tables}
    (st : OpenStep key hash req body t u) (funded : pos 0 ≤ℤ req.initial_balance)
    (h : IsConsistent t) where
  found_or_new :
      (i : ℕ)
      → find_account i u.accounts
        ≡ (if st.account.id == i then some st.account else find_account i t.accounts)
  unfolding find_account
  found_or_new i = rw st.accounts_after

  opened_sums : balance_sum u.accounts ≡ opening_sum u.accounts
  unfolding balance_sum opening_sum
  opened_sums = rw (st.accounts_after, st.funded, st.opened, h.conserved)

  opened-IsHonest :
      (i : ℕ) (a : Account) → find_account i u.accounts ≡ some a → IsHonest i u.ledger_entries a
  opened-IsHonest i a found = elim (ℕ_discrete st.account.id i) [
    | yes p ↦
        IsHonest-at u.accounts u.ledger_entries {a = a} {b = st.account} p
          (found_or_new st.account.id ∙ rw ==_refl) found
          (record {
            reconciled =
                rw
                  (
                    st.funded,
                    st.opened,
                    st.entries_after,
                    account_sum-HasNoEntry st.account.id t.ledger_entries
                        (h.no_strays st.account.id st.new_id),
                  )
                  (omega int_laws);
            not_negative = rw st.funded funded;
            opened_not_negative = rw st.opened funded;
          })
    | no p ↦ rw st.entries_after (h.honest i a (sym (found_or_new i ∙ rw (==_ne p)) ∙ found))
  ]

  opened_no_strays : (i : ℕ) → find_account i u.accounts ≡ none → HasNoEntry i u.ledger_entries
  opened_no_strays i missing = elim (ℕ_discrete st.account.id i) [
    | yes p ↦ cc (found_or_new i, missing, ap (λ k. st.account.id == k) p, ==_refl st.account.id)
    | no p ↦ rw st.entries_after (h.no_strays i (sym (found_or_new i ∙ rw (==_ne p)) ∙ missing))
  ]

  -- Opening an account keeps the invariant.
  pub OpenStep-IsConsistent : IsConsistent u
  OpenStep-IsConsistent = record {
    nets_to_zero = rw st.entries_after h.nets_to_zero;
    legs_balance = λ i. rw st.entries_after (h.legs_balance i);
    conserved = opened_sums;
    honest = opened-IsHonest;
    no_strays = opened_no_strays;
    answers = answers_after t u st.claim st.answered st.keys_after h;
  }
