-- ===== src/Schemas/Limits.antt =====
-- The constraints that app/schemas.py declares on a request, against the columns that its values are
-- stored in.
use std.Logic.{◌↔◌}
use chekin_interview.Base.{ℕ, String, ◌≡◌, some, true, false, arith, ◌≤◌, ◌&&◌}
use chekin_interview.Base.Int.{ℤ, pos, ◌+ℤ◌, ◌<ℤ◌, ltb_ℤ, +ℤ_parts, -ℤ_parts}
use chekin_interview.Base.Text.{text_length}
use chekin_interview.Models.{Account, add_key, add_account, set_balance}
use chekin_interview.Models.Constraints.{
  admits, fits_money, is_non_negative, is_non_zero, numeric_limit,
}
use chekin_interview.Schemas.{CreateAccountRequest, is_positive_money, is_non_negative_money}
use chekin_interview.Database.{All}
use chekin_interview.Database.Exec.{ok}
use chekin_interview.Idempotency.{new_claim}
use chekin_interview.Idempotency.Key.{require_key}
use chekin_interview.Idempotency.Key.Trimmed.{require_key-ok}
use chekin_interview.Transfers.{legs}
use chekin_interview.Transfers
use chekin_interview.Accounts.{new_account}

-- An opening balance passes the validation of its request exactly if the constraints of `accounts`
-- admit the row that the request asks for.
pub admits-new_account :
    (i : ℕ) (req : CreateAccountRequest)
    → admits (add_account (new_account i req)) ≡ is_non_negative_money req.initial_balance
unfolding admits fits_money is_non_negative is_non_negative_money
admits-new_account i req = ground arith

-- Of a validated amount that the source covers, between accounts whose balances the constraints
-- admit: the constraints admit all row changes of the transfer exactly if the credited balance stays
-- below 10 ^ 20 ten-thousandths.
pub legs-admits :
    (debit_id credit_id transfer_id : ℕ) (source destination : Account) (amount : ℤ)
    → is_positive_money amount ≡ true
    → admits (set_balance source.id source.balance) ≡ true
    → admits (set_balance destination.id destination.balance) ≡ true
    → ltb_ℤ source.balance amount ≡ false
    → All (λ w. admits w ≡ true) (legs debit_id credit_id transfer_id source destination amount)
      ↔ destination.balance +ℤ amount <ℤ pos numeric_limit
unfolding legs admits fits_money is_non_negative is_non_zero is_positive_money
legs-admits debit_id credit_id transfer_id source destination amount p s d covered = (
  λ h. credited h.1.0,
  λ h. (
    ground (arith, -ℤ_parts source.balance amount),
    (
      ground (arith, +ℤ_parts destination.balance amount),
      (ground (arith, -ℤ_parts (pos 0) amount), (ground arith, tt)),
    ),
  ),
)
  where
    credited :
        fits_money (destination.balance +ℤ amount)
            && is_non_negative (destination.balance +ℤ amount)
          ≡ true
        → destination.balance +ℤ amount <ℤ pos numeric_limit
    credited h = ground (arith, +ℤ_parts destination.balance amount)

-- A key that `require_key` returns for a header fits its column: the constraints admit the row that
-- claims it for a transfer, if the request's hash has at most 64 characters.
pub require_key-admits :
    (raw key hash : String)
    → require_key (some raw) ≡ ok key
    → text_length hash ≤ 64
    → admits (add_key (new_claim key Transfers.operation hash)) ≡ true
unfolding admits
require_key-admits raw key hash h k =
    let (filled, short, same, again) = require_key-ok raw key h in ground arith
