-- ===== src/Idempotency/Replay.antt =====
-- `replay`: when a stored record answers a request.
use chekin_interview.Base.{String, ◌≡◌, true, arith, eq_iff}
use chekin_interview.Models.{IdempotencyKey}
use chekin_interview.Database.Exec.{ok, raise}
use chekin_interview.Idempotency.{Outcome, or_null, conflict, replay}

-- The response that a record holds, marked as replayed.
abbrev pub stored_response : IdempotencyKey → Outcome
stored_response r = record { status_code = 200; body = or_null r.response_body; replayed = true }

pub replay-match :
    (r : IdempotencyKey) (operation hash : String)
    → r.operation ≡ operation
    → r.request_hash ≡ hash
    → replay r operation hash ≡ ok (stored_response r)
unfolding replay
replay-match r operation hash p q =
    rw ((eq_iff r.operation operation).1 p, (eq_iff r.request_hash hash).1 q)

-- A record answers only the request that it was made for, and with its own response.
pub replay-eq-ok :
    (r : IdempotencyKey) (operation hash : String) (o : Outcome)
    → replay r operation hash ≡ ok o
    → (r.operation ≡ operation) × (r.request_hash ≡ hash) × (o ≡ stored_response r)
unfolding replay
replay-eq-ok r operation hash o h =
    ground (arith, eq_iff r.operation operation, eq_iff r.request_hash hash)

-- Any other request under the key is refused.
pub replay-conflict :
    (r : IdempotencyKey) (operation hash : String)
    → ¬ ((r.operation ≡ operation) × (r.request_hash ≡ hash))
    → replay r operation hash ≡ raise (conflict r)
unfolding replay
replay-conflict r operation hash h =
    ground (arith, eq_iff r.operation operation, eq_iff r.request_hash hash)
