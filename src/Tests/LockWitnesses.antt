-- ===== src/Tests/LockWitnesses.antt =====
-- The theorems on locks, on the trigger and on the migration at concrete inputs.
use mathlib.Core.Logic.{◌↔◌}
use chekin_interview.Base.{ℕ, ◌≡◌, refl, some, List, [], ◌∷◌, arith, true}
use chekin_interview.Base.Int.{pos, negsuc, ◌+ℤ◌}
use chekin_interview.Json.{null}
use chekin_interview.Models.{Account, IdempotencyKey, LedgerEntry, Write, add_entry, apply}
use chekin_interview.Models.Constraints.{leg_sum, trigger_passes, conserves_money}
use chekin_interview.Models.Sums.{entry_sum}
use chekin_interview.Models.Conservation.{trigger_conserves}
use chekin_interview.Database.{account_row, key_row, All}
use chekin_interview.Database.Exec.{Result, ok, raise}
use chekin_interview.Idempotency.{new_claim}
use chekin_interview.Transfers.{operation, sorted, lock_accounts}
use chekin_interview.Transfers.Sorted.{IsAscending}
use chekin_interview.Transfers.Asked.{Asked, lock_accounts-Asked}
use chekin_interview.Transfers.Waits.{Request, transfer, plan, Waiter, Among, WaitsFor, no_deadlock}
use chekin_interview.Migrations.{PreviousKey, upgrade, downgrade}
use chekin_interview.Migrations.Replays.{upgrade-downgrade}
use chekin_interview.Memory.{Memory}
use chekin_interview.Memory.Laws.{memory}
use chekin_interview.Tests.{codec, bank, session, pay, runs}
use chekin_interview.Tests.Samples.{first_hash}

-- Two transfers between the same accounts, in opposite directions.
abbrev locked : Result (List (ℕ × Account)) × Memory
locked = lock_accounts memory codec (9 ∷ 4 ∷ []) (session bank [])

abbrev locked_back : Result (List (ℕ × Account)) × Memory
locked_back = lock_accounts memory codec (4 ∷ 9 ∷ []) (session bank [])

abbrev rows : Result (List (ℕ × Account)) → List (ℕ × Account)
rows (ok l) = l
rows (raise x) = []

forth_ran : locked ≡ (ok (rows locked.0), locked.1)
unfolding runs
forth_ran = refl

back_ran : locked_back ≡ (ok (rows locked_back.0), locked_back.1)
unfolding runs
back_ran = refl

forth : Request memory codec
forth =
    transfer "k1" (pay 9 4 1) (session bank []) locked.1 (rows locked.0) (λ h. omega (arith, h))
      forth_ran

back : Request memory codec
back =
    transfer "k2" (pay 4 9 1) (session bank []) locked_back.1 (rows locked_back.0)
      (λ h. omega (arith, h)) back_ran

plans :
    (plan forth ≡ key_row "k1" ∷ account_row 4 ∷ account_row 9 ∷ [])
    × (plan back ≡ key_row "k2" ∷ account_row 4 ∷ account_row 9 ∷ [])
unfolding forth back runs
plans = (refl, refl)

-- One has locked the account 4, which the other has asked for.
abbrev ahead : Waiter memory codec
ahead = record {
  request = forth;
  holds = key_row "k1" ∷ account_row 4 ∷ [];
  wants = account_row 9;
  later = [];
  planned = plans.0;
}

abbrev behind : Waiter memory codec
behind = record {
  request = back;
  holds = key_row "k2" ∷ [];
  wants = account_row 4;
  later = account_row 9 ∷ [];
  planned = plans.1;
}

no_deadlock_example :
    (u : Waiter memory codec) × Among u (behind ∷ ahead ∷ [])
    × All (λ v. ¬ WaitsFor u v) (behind ∷ ahead ∷ [])
no_deadlock_example = no_deadlock behind (ahead ∷ [])

lock_accounts-Asked_example :
    Asked memory (sorted (9 ∷ 4 ∷ [])) (session bank []) locked.1
    × IsAscending (sorted (9 ∷ 4 ∷ []))
unfolding runs
lock_accounts-Asked_example =
    lock_accounts-Asked memory codec (9 ∷ 4 ∷ []) (session bank []) (rows locked.0) locked.1 refl

-- A writer that is no service: three entries that sum to zero.
abbrev by_hand : ℕ → ℕ → LedgerEntry
by_hand id x = record { id = id; transfer_id = 7; account_id = id; amount = pos x; created_at = 0 }

abbrev three_legs : List Write
three_legs =
    add_entry (by_hand 1 2)
    ∷ add_entry (by_hand 2 3)
    ∷ add_entry (record (by_hand 3 0) { amount = negsuc 4 })
    ∷ []

no_legs : (i : ℕ) → leg_sum i bank.ledger_entries ≡ pos 0
unfolding leg_sum
no_legs i = refl

three_pass : trigger_passes three_legs (apply 70 three_legs bank).ledger_entries ≡ true
unfolding trigger_passes conserves_money leg_sum ◌+ℤ◌
three_pass = refl

trigger_conserves_example :
    ((i : ℕ) → leg_sum i (apply 70 three_legs bank).ledger_entries ≡ pos 0)
    × (entry_sum (apply 70 three_legs bank).ledger_entries ≡ pos 0)
trigger_conserves_example = trigger_conserves 70 three_legs bank no_legs three_pass

-- A row of the previous release.
abbrev previous : PreviousKey
previous = record {
  key = "k1";
  request_hash = first_hash;
  transfer_id = some 7;
  response_status = some 201;
  response_body = some null;
  created_at = 3;
}

abbrev claimed : IdempotencyKey
claimed = new_claim "k1" operation first_hash

upgrade-downgrade_example :
    (downgrade (upgrade previous) ≡ previous)
    × ((upgrade (downgrade claimed) ≡ claimed) ↔ (claimed.operation ≡ operation))
upgrade-downgrade_example = upgrade-downgrade previous claimed
