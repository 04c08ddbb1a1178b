-- ===== src/Migrations/Replays.antt =====
-- The records of keys over an upgrade and a downgrade of the migration.
use chekin_interview.Base.{String, ◌≡◌, eq_iff, refl, sym, ap}
use mathlib.Core.Logic.{◌↔◌}
use chekin_interview.Models.{IdempotencyKey}
use chekin_interview.Database.Exec.{raise}
use chekin_interview.Idempotency.{replay, conflict}
use chekin_interview.Idempotency.Replay.{replay-conflict}
use chekin_interview.Transfers.{operation}
use chekin_interview.Accounts
use chekin_interview.Migrations.{PreviousKey, server_default, upgrade, downgrade}

-- The downgrade undoes the upgrade; the upgrade undoes the downgrade on the record of a transfer, and
-- only there.
pub upgrade-downgrade :
    (p : PreviousKey) (r : IdempotencyKey)
    → (downgrade (upgrade p) ≡ p) × ((upgrade (downgrade r) ≡ r) ↔ (r.operation ≡ operation))
unfolding upgrade downgrade
upgrade-downgrade p r = (
  refl,
  (λ h. sym (ap (λ (k : IdempotencyKey). k.operation) h), λ h i. record r { operation = sym h i }),
)

-- A downgrade forgets which endpoint a key was used for: after it and an upgrade, the record of an
-- opened account refuses its own retry.
pub replay-downgrade :
    (r : IdempotencyKey) (hash : String)
    → replay (upgrade (downgrade r)) Accounts.operation hash
      ≡ raise (conflict (upgrade (downgrade r)))
unfolding upgrade downgrade
replay-downgrade r hash =
    replay-conflict (upgrade (downgrade r)) Accounts.operation hash
      (λ h. cc ((eq_iff server_default Accounts.operation).1 h.0))
