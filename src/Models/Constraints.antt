-- ===== src/Models/Constraints.antt =====
-- The constraints of the schema: the CHECKs and column types of app/models.py and the trigger of
-- migrations/versions/c4b8f2e07a13_conservation_as_a_schema_constraint.py.
use chekin_interview.Base.{
  ℕ, ◌+◌, ◌^◌, Bool, true, not, ◌&&◌, List, [], ◌∷◌, ltb, leb, ◌==◌, if◌then◌else◌,
}
use chekin_interview.Base.Int.{ℤ, pos, pos_part, neg_part, ◌+ℤ◌, ltb_ℤ}
use chekin_interview.Base.Text.{text_length}
use chekin_interview.Models.{
  LedgerEntry, Write, add_key, add_account, add_entry, set_balance, set_response,
}

-- NUMERIC(20, 4) holds at most twenty digits, so fewer than 10 ^ 20 ten-thousandths.
abbrev pub numeric_limit : ℕ
numeric_limit = 10 ^ 20

unfoldable pub fits_money : ℤ → Bool
fits_money v = ltb (pos_part v + neg_part v) numeric_limit

-- `balance >= 0`, `opening_balance >= 0`
unfoldable pub is_non_negative : ℤ → Bool
is_non_negative v = not (ltb_ℤ v (pos 0))

-- `amount <> 0`
unfoldable pub is_non_zero : ℤ → Bool
is_non_zero v = not (pos_part v + neg_part v == 0)

-- Whether the CHECKs and the column types admit a row change.
unfoldable pub admits : Write → Bool
unfolding fits_money is_non_negative is_non_zero
admits (add_key r) =
    leb (text_length r.key) 255
    && (leb (text_length r.operation) 32 && leb (text_length r.request_hash) 64)
admits (add_account a) =
    fits_money a.balance
    && (fits_money a.opening_balance
        && (is_non_negative a.balance && is_non_negative a.opening_balance))
admits (add_entry e) = fits_money e.amount && is_non_zero e.amount
admits (set_balance i v) = fits_money v && is_non_negative v
admits (set_response k resource status body) = true

-- `SELECT COALESCE(SUM(amount), 0) FROM ledger_entries WHERE transfer_id = …`
unfoldable pub leg_sum : ℕ → List LedgerEntry → ℤ
leg_sum transfer [] = pos 0
leg_sum transfer (e ∷ rest) =
    if e.transfer_id == transfer then e.amount +ℤ leg_sum transfer rest else leg_sum transfer rest

-- `assert_transfer_conserves_money`: whether the trigger lets the row pass at COMMIT.
unfoldable pub conserves_money : ℕ → List LedgerEntry → Bool
conserves_money transfer entries = let v = leg_sum transfer entries in pos_part v + neg_part v == 0

-- The trigger runs once for each entry that the transaction inserted, at COMMIT. It is AFTER INSERT only;
-- no row change of Write updates or removes an entry, as no code of app/ does.
unfoldable pub trigger_passes : List Write → List LedgerEntry → Bool
trigger_passes [] entries = true
trigger_passes (add_entry e ∷ ws) entries =
    conserves_money e.transfer_id entries && trigger_passes ws entries
trigger_passes (add_key r ∷ ws) entries = trigger_passes ws entries
trigger_passes (add_account a ∷ ws) entries = trigger_passes ws entries
trigger_passes (set_balance i v ∷ ws) entries = trigger_passes ws entries
trigger_passes (set_response k resource status body ∷ ws) entries = trigger_passes ws entries
