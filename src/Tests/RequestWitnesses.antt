-- ===== src/Tests/RequestWitnesses.antt =====
-- The theorems on whole requests, on reads and on bounds at concrete inputs.
use mathlib.Core.Logic.{◌↔◌}
use chekin_interview.Base.{◌≡◌, refl, some, true, [], ◌∷◌, ◌++◌, arith, ◌&&◌}
use chekin_interview.Base.Int.{pos, ◌+ℤ◌, ◌<ℤ◌}
use chekin_interview.Errors.{other_exception}
use chekin_interview.Models.{add_key}
use chekin_interview.Models.Constraints.{admits, numeric_limit, fits_money, is_non_negative}
use chekin_interview.Schemas.{is_positive_money}
use chekin_interview.Schemas.Limits.{legs-admits, require_key-admits}
use chekin_interview.Database.{Ends, All}
use chekin_interview.Database.Exec.{ok, raise}
use chekin_interview.Idempotency.{new_claim}
use chekin_interview.Idempotency.Key.{require_key}
use chekin_interview.Idempotency.Kinds.{Raises}
use chekin_interview.Transfers.{operation, legs}
use chekin_interview.Api.{post_transfers, get_balance, list_transactions, respond, request_id}
use chekin_interview.Api.Context.{respond_logged, stamped, catch_all_lines, respond_logged-lines}
use chekin_interview.Api.Kinds.{transfer_kinds, post_transfers-Raises}
use chekin_interview.Api.Reads.{
  Balance, Shows, FailedRead, get_balance-Ends, list_transactions-Ends,
}
use chekin_interview.Memory.Laws.{memory}
use chekin_interview.Memory.Foreign.{memory-RaisesForeign}
use chekin_interview.Tests.{codec, account, bank, session, first}
use chekin_interview.Tests.Samples.{first_request, empty_log, applied}

post_transfers-Raises_example :
    Raises transfer_kinds
      (post_transfers memory codec [] first_request (some "k1") (session bank []))
post_transfers-Raises_example =
    post_transfers-Raises memory memory-RaisesForeign codec [] first_request (some "k1")
      (session bank [])

get_balance-Ends_example :
    Ends
      (Balance memory codec 9 (session first.1.stored []))
      (FailedRead memory codec 9 (session first.1.stored []))
      (get_balance memory codec 9 (session first.1.stored []))
get_balance-Ends_example = get_balance-Ends memory codec 9 (session first.1.stored []) refl

list_transactions-Ends_example :
    Ends
      (Shows memory codec 9 (session first.1.stored []))
      (FailedRead memory codec 9 (session first.1.stored []))
      (list_transactions memory codec 9 (session first.1.stored []))
list_transactions-Ends_example =
    list_transactions-Ends memory codec 9 (session first.1.stored []) refl

respond_logged-lines_example :
    let (reply, after) =
      respond_logged (some "r1") "r2" (applied ∷ []) (raise (other_exception "boom")) empty_log in
    (reply ≡ respond (some "r1") "r2" (raise (other_exception "boom")))
    × (after.request_id ≡ "-")
    × (after.lines
        ≡ (empty_log.lines ++ stamped 20 (request_id (some "r1") "r2") (applied ∷ []))
          ++ catch_all_lines 20 "-" (raise (other_exception "boom")))
respond_logged-lines_example =
    respond_logged-lines (some "r1") "r2" (applied ∷ []) (raise (other_exception "boom")) empty_log

-- The transfer of 12.5000 from an account with 50.0000 to an empty one.
amount_valid : is_positive_money (pos 125000) ≡ true
unfolding is_positive_money
amount_valid = refl

source_valid : fits_money (pos 500000) && is_non_negative (pos 500000) ≡ true
unfolding fits_money is_non_negative
source_valid = refl

destination_valid : fits_money (pos 0) && is_non_negative (pos 0) ≡ true
unfolding fits_money is_non_negative
destination_valid = refl

legs-admits_example :
    All (λ w. admits w ≡ true) (legs 1 2 7 (account 9 500000) (account 4 0) (pos 125000))
    ↔ pos 0 +ℤ pos 125000 <ℤ pos numeric_limit
unfolding admits
legs-admits_example =
    legs-admits 1 2 7 (account 9 500000) (account 4 0) (pos 125000) amount_valid source_valid
      destination_valid refl

sent_key : require_key (some " k1 ") ≡ ok "k1"
unfolding require_key
sent_key = refl

require_key-admits_example : admits (add_key (new_claim "k1" operation "abcd")) ≡ true
require_key-admits_example = require_key-admits " k1 " "k1" "abcd" sent_key (omega arith)
