-- ===== src/Idempotency/Kinds.antt =====
-- Which domain errors `execute_once` can raise: those of its work, and its own.
use chekin_interview.Base.{
  ℕ, String, ◌≡◌, ◌⊎◌, inl, inr, not, ◌||◌, str_eq, Option, none, some, List, [], ◌∷◌, Bool-cases,
}
use chekin_interview.Errors.{
  ErrorType, Exn, ledger, integrity_error, data_error, operational_error, other_exception,
  lock_timeout, amount_out_of_range, internal_error, idempotency_key_conflict,
}
use chekin_interview.Json.{Json}
use chekin_interview.Models.{Account, IdempotencyKey, Write, add_key}
use chekin_interview.Schemas.{Codec}
use chekin_interview.Database.{Engine}
use chekin_interview.Database.Exec.{
  Result, ok, raise, Exec, pure, lift, follow, handle, ◌>>=◌, ◌>>◌,
}
use chekin_interview.Idempotency.{
  Outcome, conflict, replay, replay_existing, fast_path, claim_and_perform, replay_winner,
  handle_failure, recover, after_fast_path, execute_once, has_state, new_claim, fingerprint,
  pg_unique_violation, pg_numeric_out_of_range, pg_lock_not_available, pg_deadlock_detected,
}

abbrev pub Lists : List ErrorType → ErrorType → Type 0
Lists [] k = ⊥
Lists (x ∷ xs) k = (k ≡ x) ⊎ Lists xs k

-- An exception that is no domain error, or one of a class that is listed.
abbrev pub IsTold : List ErrorType → Exn → Type 0
IsTold ks (ledger x) = Lists ks x.kind
IsTold ks _ = Unit

-- A call that raises no other domain errors.
abbrev pub Raises {ℓ} : {S A : Type ℓ} → List ErrorType → Result A × S → Type 0
Raises ks (ok a, s) = Unit
Raises ks (raise x, s) = IsTold ks x

module _ {S A B : Type 0} (ks : List ErrorType) where
  pub Raises-bind :
      (f : A → Exec S B) (r : Result A × S)
      → Raises ks r
      → ((a : A) (s : S) → Raises ks (f a s))
      → Raises ks (follow f r)
  Raises-bind f (ok a, s) h k = k a s
  Raises-bind f (raise x, s) h k = h

module _ {S A : Type 0} (ks : List ErrorType) where
  Raises-finally : (close : S → S) (r : Result A × S) → Raises ks r → Raises ks (r.0, close r.1)
  Raises-finally close (ok a, s) h = tt
  Raises-finally close (raise x, s) h = h

-- The session raises SQLAlchemy's exceptions, and no domain errors of the application.
pub record RaisesForeign (e : Engine) : Type 0 where
  pub get_key : (k : String) (s : e.Session) → Raises [] (e.get_key k s)
  pub get_account : (i : ℕ) (s : e.Session) → Raises [] (e.get_account i s)
  pub lock_account : (i : ℕ) (s : e.Session) → Raises [] (e.lock_account i s)
  pub flush : (ws : List Write) (s : e.Session) → Raises [] (e.flush ws s)
  pub commit : (s : e.Session) → Raises [] (e.commit s)
  pub refresh : (a : Account) (s : e.Session) → Raises [] (e.refresh a s)
  pub now : (s : e.Session) → Raises [] (e.now s)

pub weaken : {S A : Type 0} (ks : List ErrorType) (r : Result A × S) → Raises [] r → Raises ks r
weaken ks (ok a, s) h = tt
weaken ks (raise (ledger x), s) h = elim h [ ]
weaken ks (raise (integrity_error x), s) h = tt
weaken ks (raise (data_error x), s) h = tt
weaken ks (raise (operational_error x), s) h = tt
weaken ks (raise (other_exception x), s) h = tt

-- The kinds that `execute_once` adds to those of its work.
pub record AddsKinds (ks : List ErrorType) : Type 0 where
  pub conflicts : Lists ks idempotency_key_conflict
  pub vanishes : Lists ks internal_error
  pub overflows : Lists ks amount_out_of_range
  pub waits : Lists ks lock_timeout

module _ (e : Engine) (foreign : RaisesForeign e) (c : Codec) (ks : List ErrorType)
    (adds : AddsKinds ks) where
  open e use {Session}

  replay-Raises :
      (r : IdempotencyKey) (operation hash : String) (s : Session)
      → Raises ks (lift (replay r operation hash) s)
  unfolding replay conflict
  replay-Raises r operation hash s =
      elim (Bool-cases (not (str_eq r.operation operation) || not (str_eq r.request_hash hash))) [
        | inl p ↦ rw p adds.conflicts
        | inr p ↦ rw p tt
      ]

  replay_existing-Raises :
      (r : Option IdempotencyKey) (operation hash : String) (s : Session)
      → Raises ks (replay_existing e r operation hash s)
  unfolding replay_existing
  replay_existing-Raises none operation hash s = tt
  replay_existing-Raises (some r) operation hash s =
      Raises-bind ks (λ o. pure (some o)) (replay r operation hash, s)
        (replay-Raises r operation hash s) (λ o t. tt)

  fast_path-Raises :
      (key operation hash : String) (s : Session) → Raises ks (fast_path e key operation hash s)
  unfolding fast_path
  fast_path-Raises key operation hash s = Raises-finally ks e.rollback _ (
      Raises-bind ks (λ r. replay_existing e r operation hash) (e.get_key key s)
        (weaken ks (e.get_key key s) (foreign.get_key key s))
        (λ r t. replay_existing-Raises r operation hash t))

  claim_and_perform-Raises :
      (claim : IdempotencyKey) (perform : IdempotencyKey → Exec Session Outcome) (s : Session)
      → ((t : Session) → Raises ks (perform claim t))
      → Raises ks (claim_and_perform e claim perform s)
  unfolding claim_and_perform
  claim_and_perform-Raises claim perform s h =
      Raises-bind ks (λ u. perform claim >>= λ o. e.commit >> pure o)
        (e.flush (add_key claim ∷ []) s)
        (weaken ks (e.flush (add_key claim ∷ []) s) (foreign.flush (add_key claim ∷ []) s))
        (λ u t.
          Raises-bind ks (λ o. e.commit >> pure o) (perform claim t) (h t)
            (λ o v.
              Raises-bind ks (λ u. pure o) (e.commit v) (weaken ks (e.commit v) (foreign.commit v))
                (λ u w. tt)))

  replay_winner-Raises :
      (r : Option IdempotencyKey) (operation hash : String) (s : Session)
      → Raises ks (replay_winner e r operation hash s)
  unfolding replay_winner
  replay_winner-Raises none operation hash s = adds.vanishes
  replay_winner-Raises (some r) operation hash s = replay-Raises r operation hash s

  handle_failure-Raises :
      (key operation hash : String) (x : Exn) (s : Session)
      → IsTold ks x
      → Raises ks (handle_failure e key operation hash x s)
  unfolding handle_failure
  handle_failure-Raises key operation hash (ledger y) s h = h
  handle_failure-Raises key operation hash (other_exception y) s h = tt
  handle_failure-Raises key operation hash (data_error y) s h =
      elim (Bool-cases (has_state (data_error y) pg_numeric_out_of_range)) [
        | inl p ↦ rw p adds.overflows
        | inr p ↦ rw p tt
      ]
  handle_failure-Raises key operation hash (operational_error y) s h =
      elim (Bool-cases (has_state (operational_error y) pg_lock_not_available)) [
        | inl p ↦ rw p adds.waits
        | inr p ↦ rw p (elim (Bool-cases (has_state (operational_error y) pg_deadlock_detected)) [
          | inl q ↦ rw q adds.waits
          | inr q ↦ rw q tt
        ])
      ]
  handle_failure-Raises key operation hash (integrity_error y) s h =
      elim (Bool-cases (has_state (integrity_error y) pg_unique_violation)) [
        | inr p ↦ rw p tt
        | inl p ↦ rw p (
            Raises-bind ks (λ r. replay_winner e r operation hash) (e.get_key key s)
              (weaken ks (e.get_key key s) (foreign.get_key key s))
              (λ r t. replay_winner-Raises r operation hash t))
      ]

  handled-Raises :
      (key operation hash : String) (r : Result Outcome × Session)
      → Raises ks r
      → Raises ks (handle (recover e key operation hash) r)
  unfolding recover
  handled-Raises key operation hash (ok o, s) h = tt
  handled-Raises key operation hash (raise x, s) h =
      handle_failure-Raises key operation hash x (e.rollback s) h

  after_fast_path-Raises :
      (key operation hash : String) (perform : IdempotencyKey → Exec Session Outcome)
      (o : Option Outcome) (s : Session)
      → ((claim : IdempotencyKey) (t : Session) → Raises ks (perform claim t))
      → Raises ks (after_fast_path e key operation hash perform o s)
  unfolding after_fast_path
  after_fast_path-Raises key operation hash perform (some o) s h = tt
  after_fast_path-Raises key operation hash perform none s h = handled-Raises key operation hash _ (
      claim_and_perform-Raises (new_claim key operation hash) perform s
        (h (new_claim key operation hash)))

  -- `execute_once` adds its own four classes to those of its work.
  pub execute_once-Raises :
      (key operation : String) (req : Json) (perform : IdempotencyKey → Exec Session Outcome)
      (s : Session)
      → ((claim : IdempotencyKey) (t : Session) → Raises ks (perform claim t))
      → Raises ks (execute_once e c key operation req perform s)
  unfolding execute_once
  execute_once-Raises key operation req perform s h =
      let hash = fingerprint c req in
      Raises-bind ks (after_fast_path e key operation hash perform)
        (fast_path e key operation hash s) (fast_path-Raises key operation hash s)
        (λ o t. after_fast_path-Raises key operation hash perform o t h)
