-- ===== src/Models/Conservation.antt =====
-- What the deferred trigger is for: no writer, of the services or not, can commit row changes that
-- create or destroy money.
use mathlib.Core.Path.{subst}
use native.Mathlib.Decide.{ℕ_discrete}
use chekin_interview.Base.{
  both_true, eq_of_test, ℕ, zero, suc, ◌≤◌, ◌≡◌, ◌≢◌, refl, sym, ◌∙◌, ap, Bool, true, false, ◌||◌,
  List, [], ◌∷◌, arith, length, Bool-cases, ◌⊎◌, inl, inr, ◌==◌, ==_refl, if◌then◌else◌,
}
use chekin_interview.Base.Int.{pos, ◌+ℤ◌, int_laws}
use chekin_interview.Models.{
  LedgerEntry, Tables, Write, add_key, add_account, add_entry, set_balance, set_response,
  apply_write, apply,
}
use chekin_interview.Models.Constraints.{leg_sum, conserves_money, trigger_passes}
use chekin_interview.Models.Sums.{entry_sum}

both_false : (a b : Bool) → a || b ≡ false → (a ≡ false) × (b ≡ false)
both_false false false h = (refl, refl)
both_false false true h = cc h
both_false true b h = cc h

or_false : {a : Bool} (b : Bool) → a ≡ false → a || b ≡ b
or_false b h = rw h refl

-- Whether row changes insert an entry of a transfer.
inserts : ℕ → List Write → Bool
inserts i [] = false
inserts i (add_entry e ∷ ws) = (e.transfer_id == i) || inserts i ws
inserts i (add_key r ∷ ws) = inserts i ws
inserts i (add_account a ∷ ws) = inserts i ws
inserts i (set_balance j v ∷ ws) = inserts i ws
inserts i (set_response k resource status body ∷ ws) = inserts i ws

leg_sum-apply :
    (i now : ℕ) (ws : List Write) (t : Tables)
    → inserts i ws ≡ false
    → leg_sum i (apply now ws t).ledger_entries ≡ leg_sum i t.ledger_entries
unfolding inserts leg_sum
leg_sum-apply i now [] t h = refl
leg_sum-apply i now (add_entry e ∷ ws) t h =
    let (other, rest) = both_false (e.transfer_id == i) (inserts i ws) h in
    leg_sum-apply i now ws (apply_write now (add_entry e) t) rest ∙ (rw other refl)
leg_sum-apply i now (add_key r ∷ ws) t h = leg_sum-apply i now ws _ h
leg_sum-apply i now (add_account a ∷ ws) t h = leg_sum-apply i now ws _ h
leg_sum-apply i now (set_balance j v ∷ ws) t h = leg_sum-apply i now ws _ h
leg_sum-apply i now (set_response k resource status body ∷ ws) t h = leg_sum-apply i now ws _ h

conserved-inserts :
    (i : ℕ) (ws : List Write) (entries : List LedgerEntry)
    → inserts i ws ≡ true
    → trigger_passes ws entries ≡ true
    → conserves_money i entries ≡ true
unfolding inserts trigger_passes
conserved-inserts i [] entries h k = cc h
conserved-inserts i (add_entry e ∷ ws) entries h k =
    let (first, later) =
      both_true (conserves_money e.transfer_id entries) (trigger_passes ws entries) k in
    elim (Bool-cases (e.transfer_id == i)) [
      | inl p ↦ subst (λ j. conserves_money j entries ≡ true) (eq_of_test e.transfer_id i p) first
      | inr p ↦ conserved-inserts i ws entries (sym (or_false (inserts i ws) p) ∙ h) later
    ]
conserved-inserts i (add_key r ∷ ws) entries h k = conserved-inserts i ws entries h k
conserved-inserts i (add_account a ∷ ws) entries h k = conserved-inserts i ws entries h k
conserved-inserts i (set_balance j v ∷ ws) entries h k = conserved-inserts i ws entries h k
conserved-inserts i (set_response r resource status body ∷ ws) entries h k =
    conserved-inserts i ws entries h k

zero_of_conserves :
    (i : ℕ) (entries : List LedgerEntry)
    → conserves_money i entries ≡ true
    → leg_sum i entries ≡ pos 0
unfolding conserves_money
zero_of_conserves i entries h = ground arith

-- The entries of other transfers.
others : ℕ → List LedgerEntry → List LedgerEntry
others i [] = []
others i (e ∷ rest) = if e.transfer_id == i then others i rest else e ∷ others i rest

entry_sum-others :
    (i : ℕ) (l : List LedgerEntry) → entry_sum l ≡ leg_sum i l +ℤ entry_sum (others i l)
unfolding entry_sum leg_sum others ◌+ℤ◌
entry_sum-others i [] = refl
entry_sum-others i (e ∷ rest) = grind (int_laws, entry_sum-others i rest)

leg_sum-others_self : (i : ℕ) (l : List LedgerEntry) → leg_sum i (others i l) ≡ pos 0
unfolding leg_sum others
leg_sum-others_self i [] = refl
leg_sum-others_self i (e ∷ rest) = ground (arith, leg_sum-others_self i rest)

leg_sum-others_ne : (i j : ℕ) (l : List LedgerEntry) → i ≢ j → leg_sum j (others i l) ≡ leg_sum j l
unfolding leg_sum others
leg_sum-others_ne i j [] h = refl
leg_sum-others_ne i j (e ∷ rest) h = ground (arith, leg_sum-others_ne i j rest)

length-others : (i : ℕ) (l : List LedgerEntry) → length (others i l) ≤ length l
unfolding others
length-others i [] = omega arith
length-others i (e ∷ rest) = ground (arith, length-others i rest)

length-others_head :
    (e : LedgerEntry) (rest : List LedgerEntry) (n : ℕ)
    → length (e ∷ rest) ≤ suc n
    → length (others e.transfer_id (e ∷ rest)) ≤ n
unfolding others
length-others_head e rest n h =
    rw (==_refl e.transfer_id) (omega (arith, h, length-others e.transfer_id rest))

add_zero : pos 0 +ℤ pos 0 ≡ pos 0
unfolding ◌+ℤ◌
add_zero = refl

leg_sum-others :
    (i : ℕ) (l : List LedgerEntry)
    → ((j : ℕ) → leg_sum j l ≡ pos 0)
    → ((j : ℕ) → leg_sum j (others i l) ≡ pos 0)
leg_sum-others i l h j = elim (ℕ_discrete i j) [
  | yes p ↦ rw (← p) (leg_sum-others_self i l)
  | no p ↦ leg_sum-others_ne i j l p ∙ h j
]

entry_sum-zero :
    (n : ℕ) (l : List LedgerEntry)
    → length l ≤ n
    → ((i : ℕ) → leg_sum i l ≡ pos 0)
    → entry_sum l ≡ pos 0
unfolding entry_sum
entry_sum-zero n [] short h = refl
entry_sum-zero zero (e ∷ rest) short h = absurd (omega (arith, short))
entry_sum-zero (suc n) (e ∷ rest) short h =
    let i = e.transfer_id in
    let none_left =
      entry_sum-zero n (others i (e ∷ rest)) (length-others_head e rest n short)
        (leg_sum-others i (e ∷ rest) h) in
    entry_sum-others i (e ∷ rest)
    ∙ ap (λ x. x +ℤ entry_sum (others i (e ∷ rest))) (h i)
    ∙ ap (λ x. pos 0 +ℤ x) none_left
    ∙ add_zero

-- Let a ledger's transfers each sum to zero. Whatever entries, accounts and keys a transaction then
-- inserts, and whatever balances and responses it sets, if the trigger lets it pass, each transfer of the
-- ledger still sums to zero, and so does the ledger. No entry is changed or removed.
pub trigger_conserves :
    (now : ℕ) (ws : List Write) (t : Tables)
    → ((i : ℕ) → leg_sum i t.ledger_entries ≡ pos 0)
    → trigger_passes ws (apply now ws t).ledger_entries ≡ true
    → ((i : ℕ) → leg_sum i (apply now ws t).ledger_entries ≡ pos 0)
      × (entry_sum (apply now ws t).ledger_entries ≡ pos 0)
trigger_conserves now ws t h passed =
    let after = (apply now ws t).ledger_entries in
    let each : (i : ℕ) → leg_sum i after ≡ pos 0 = λ i. each_of i (Bool-cases (inserts i ws)) in
    (each, entry_sum-zero (length after) after (omega arith) each)
  where
    each_of :
        (i : ℕ)
        → (inserts i ws ≡ true) ⊎ (inserts i ws ≡ false)
        → leg_sum i (apply now ws t).ledger_entries ≡ pos 0
    each_of i (inl p) =
        zero_of_conserves i (apply now ws t).ledger_entries
          (conserved-inserts i ws (apply now ws t).ledger_entries p passed)
    each_of i (inr p) = leg_sum-apply i now ws t p ∙ h i
