-- ===== src/Tests/ApiWitnesses.antt =====
-- The theorems on keys, histories and the HTTP side at concrete inputs.
use chekin_interview.Base.{
  String, ◌≡◌, ◌≢◌, refl, inl, inr, true, none, some, [], ◌∷◌, arith, ◌≤◌, length,
}
use chekin_interview.Base.Int.{pos, negsuc}
use chekin_interview.Errors.{other_exception, lock_timeout, retryable}
use chekin_interview.Models.{LedgerEntry}
use chekin_interview.Database.{All}
use chekin_interview.Database.Exec.{ok, raise}
use chekin_interview.Idempotency.{busy}
use chekin_interview.Accounts.History.{
  history_rows, to_items, max_transactions, join_all, join_one, matches, order_rows, insert_row,
  newer,
}
use chekin_interview.Accounts.History.Order.{IsNewestFirst, history_rows-order}
use chekin_interview.Accounts.History.Content.{Tells, history-Tells}
use chekin_interview.Api.{get_header, respond}
use chekin_interview.Api.Envelope.{
  IsEnvelope, raised, shown_as, respond-IsEnvelope, respond-unhandled,
}
use chekin_interview.Tests.{first}
use chekin_interview.Tests.Samples.{other_not_ledger}
use chekin_interview.Base.Text.{text_length}
use chekin_interview.Idempotency.Key.{max_key_length, strip, require_key}
use chekin_interview.Idempotency.Key.Trimmed.{require_key-ok}
use chekin_interview.Accounts.History.Complete.{InRows, history_rows-InRows}

history_rows-order_example :
    IsNewestFirst (history_rows 9 first.1.stored.ledger_entries)
    × (length (history_rows 9 first.1.stored.ledger_entries) ≤ max_transactions)
history_rows-order_example = history_rows-order 9 first.1.stored.ledger_entries

history-Tells_example :
    All
      (Tells 9 first.1.stored.ledger_entries)
      (to_items (history_rows 9 first.1.stored.ledger_entries))
history-Tells_example = history-Tells 9 first.1.stored.ledger_entries

respond-IsEnvelope_example : IsEnvelope lock_timeout (respond (some "r1") "r2" (raise busy))
respond-IsEnvelope_example = respond-IsEnvelope (some "r1") "r2" (raised busy)

respond-unhandled_example :
    (get_header "Retry-After" (respond none "r2" (raise (other_exception "boom"))).headers ≡ none)
    × (get_header "X-Request-ID" (respond none "r2" (raise (other_exception "boom"))).headers
        ≡ none)
    × (retryable (shown_as (other_exception "boom")) ≡ true)
respond-unhandled_example =
    respond-unhandled none "r2" (other_exception "boom") (λ y h. other_not_ledger "boom" y h)

abbrev k1 : String
k1 = "k1"

require_key-ok_example :
    (k1 ≢ "")
    × (text_length k1 ≤ max_key_length)
    × (strip " k1 " ≡ k1)
    × (require_key (some k1) ≡ ok k1)
unfolding require_key
require_key-ok_example = require_key-ok " k1 " k1 refl

-- One transfer from account 9 to account 4.
abbrev debit : LedgerEntry
debit = record { id = 1; transfer_id = 7; account_id = 9; amount = negsuc 4; created_at = 70 }

abbrev credit : LedgerEntry
credit = record { id = 2; transfer_id = 7; account_id = 4; amount = pos 5; created_at = 70 }

few_rows :
    length (order_rows (join_all 9 (credit ∷ debit ∷ []) (credit ∷ debit ∷ []))) ≤ max_transactions
unfolding join_all join_one matches order_rows insert_row newer
few_rows = omega arith

history_rows-InRows_example :
    InRows (record { mine = debit; theirs = credit }) (history_rows 9 (credit ∷ debit ∷ []))
history_rows-InRows_example =
    history_rows-InRows 9 (credit ∷ debit ∷ []) (record { mine = debit; theirs = credit }) few_rows
      (inr (inl refl)) (inl refl) refl refl (λ h. omega (arith, h))
