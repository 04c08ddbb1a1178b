-- ===== src/Idempotency/Stored.antt =====
-- A replayed answer, said in terms of the stored record.
use chekin_interview.Base.{String, ◌≡◌, ◌⊎◌, inl, inr}
use chekin_interview.Errors.{Exn}
use chekin_interview.Models.{IdempotencyKey}
use chekin_interview.Database.{Engine, IsLost}
use chekin_interview.Database.Exec.{Exec}
use chekin_interview.Idempotency.{Outcome, new_claim}
use chekin_interview.Idempotency.Contract.{Seen, Replayed, Fresh, Failed}
use chekin_interview.Idempotency.Replay.{stored_response, replay-eq-ok}

module _ (e : Engine) (key operation hash : String)
    (perform : IdempotencyKey → Exec (e.Session) Outcome) where
  open e use {Session, ghost}

  -- The outcome is the response of a committed record of the key, with the same endpoint and
  -- fingerprint, and the
  -- call committed nothing.
  pub record Stored (s : Session) (o : Outcome) (s' : Session) : Type 0 where
    pub stored : IdempotencyKey
    pub seen : Seen e key operation hash perform s stored
    pub same_operation : stored.operation ≡ operation
    pub same_hash : stored.request_hash ≡ hash
    pub answer : o ≡ stored_response stored
    pub own_kept : ghost.own s' ≡ ghost.own s

  pub Replayed-Stored :
      (s : Session) (o : Outcome) (s' : Session)
      → Replayed e key operation hash perform s o s'
      → Stored s o s'
  Replayed-Stored s o s' r =
      let (p, q, a) = replay-eq-ok r.stored operation hash o r.answer in
      record {
        stored = r.stored;
        seen = r.seen;
        same_operation = p;
        same_hash = q;
        answer = a;
        own_kept = r.own_kept;
      }

-- `Executed` says what a call that executes the request now leaves.
module _ (e : Engine) (Executed : e.Session → Outcome → e.Session → Type 0) where
  open e use {Session, ghost}

  -- The answer to the commit was lost, and the request is executed: `at` is the session just after
  -- the commit.
  pub record Unknown (s : Session) (x : Exn) (s' : Session) : Type 0 where
    pub is_lost : IsLost x
    pub outcome : Outcome
    pub at : Session
    pub executed : Executed s outcome at
    pub own_kept : ghost.own s' ≡ ghost.own at

  -- What a raise says: nothing was committed, or the answer was lost.
  abbrev pub Raised : Session → Exn → Session → Type 0
  Raised s x s' = (ghost.own s' ≡ ghost.own s) ⊎ Unknown s x s'

  pub Failed-Raised :
      (Q : IdempotencyKey → Outcome → Session → Type 0) (key operation hash : String)
      (perform : IdempotencyKey → Exec Session Outcome) (s : Session)
      → ((o : Outcome) (t : Session)
          → Fresh e Q (new_claim key operation hash) s o t
          → Executed s o t)
      → (x : Exn) (s' : Session) → Failed e Q key operation hash perform s x s'
      → Raised s x s'
  Failed-Raised Q key operation hash perform s done x s' (inl kept) = inl kept
  Failed-Raised Q key operation hash perform s done x s' (inr lost) = inr (record {
    is_lost = lost.is_lost;
    outcome = lost.outcome;
    at = lost.at;
    executed = done lost.outcome lost.at lost.fresh;
    own_kept = lost.own_kept;
  })

module _ (e : Engine) where
  open e use {Session, ghost}

  pub Raised-imp :
      (P R : Session → Outcome → Session → Type 0) (s : Session)
      → ((o : Outcome) (t : Session) → P s o t → R s o t)
      → (x : Exn) (s' : Session) → Raised e P s x s'
      → Raised e R s x s'
  Raised-imp P R s f x s' (inl kept) = inl kept
  Raised-imp P R s f x s' (inr u) = inr (record {
    is_lost = u.is_lost;
    outcome = u.outcome;
    at = u.at;
    executed = f u.outcome u.at u.executed;
    own_kept = u.own_kept;
  })
