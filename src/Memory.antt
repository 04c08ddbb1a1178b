-- ===== src/Memory.antt =====
-- An engine in memory: a single session beside which others commit while it holds nothing, driven
-- by a list of events. It is no code of the repository. It shows that the laws of `Engine` can hold
-- together, and it runs the services in the tests.
mod Reads
mod Writes
pub mod Calm
pub mod Foreign
pub mod Laws
use chekin_interview.Base.{
  ℕ, suc, String, ◌≡◌, Bool, true, false, not, List, [], ◌∷◌, ◌++◌, Option, none, some,
  if◌then◌else◌,
}
use chekin_interview.Errors.{Exn, ledger, integrity_error, data_error, other_exception}
use chekin_interview.Models.{
  Account, IdempotencyKey, LedgerEntry, Tables, Write, add_key, add_account, add_entry, set_balance,
  set_response, find_account, find_key, apply,
}
use chekin_interview.Models.Constraints.{admits, fits_money, trigger_passes}
use chekin_interview.Database.{Row, Ghost}
use chekin_interview.Database.Exec.{Result, ok, raise}

-- What happens at a statement.
pub data Event : Type 0 where
  calm : Event
  -- The server refuses it.
  fail : Exn → Event
  -- Another session has committed these row changes before it.
  other : List Write → Event
  -- A commit stands, and its answer is lost.
  lose : Event

pub record Memory : Type 0 where
  pub stored : Tables
  pub clock : ℕ
  pub changes : List Write
  pub commits : List (List Write)
  -- Whether the open transaction holds rows.
  pub active : Bool
  pub next_id : ℕ
  pub events : List Event

abbrev pub ghost : Ghost Memory
ghost = record {
  committed = λ m. m.stored;
  time = λ m. m.clock;
  pending = λ m. m.changes;
  own = λ m. m.commits;
  Held = λ m r. m.active ≡ true;
}

abbrev pub head_event : List Event → Event
head_event [] = calm
head_event (x ∷ xs) = x

abbrev pub tail_events : List Event → List Event
tail_events [] = []
tail_events (x ∷ xs) = xs

-- The next event is used up.
abbrev pub tick : Memory → Memory
tick m = record m { events = tail_events m.events }

-- Another session commits, unless this one holds rows.
abbrev pub interfere : List Write → Memory → Memory
interfere ws m = record m { stored = if m.active then m.stored else apply m.clock ws m.stored }

-- The server raises no domain errors of the application.
abbrev pub foreign : Exn → Exn
foreign (ledger x) = other_exception "LedgerError"
foreign x = x

-- A statement: the event comes first.
abbrev pub at_event :
    {A : Type 0} → Event → (Memory → Result A × Memory) → Memory → Result A × Memory
at_event calm run m = run m
at_event (fail x) run m = (raise (foreign x), m)
at_event (other ws) run m = run (interfere ws m)
at_event lose run m = run m

unfoldable pub statement : {A : Type 0} → (Memory → Result A × Memory) → Memory → Result A × Memory
statement run m = at_event (head_event m.events) run (tick m)

-- Why the server refuses a row change, if it does.
unfoldable pub refusal : Tables → Write → Option Exn
refusal t (add_key r) =
    if not (admits (add_key r))
    then some (data_error (some "22001"))
    else elim (find_key r.key t.idempotency_keys) [
      | none ↦ none
      | some x ↦ some (integrity_error (some "23505"))
    ]
refusal t (add_account a) =
    if not (admits (add_account a))
    then some (data_error (some "22003"))
    else elim (find_account a.id t.accounts) [
      | none ↦ none
      | some x ↦ some (integrity_error (some "23505"))
    ]
refusal t (add_entry l) =
    if not (admits (add_entry l)) then some (integrity_error (some "23514")) else none
refusal t (set_balance i v) =
    if not (fits_money v)
    then some (data_error (some "22003"))
    else if not (admits (set_balance i v))
    then some (integrity_error (some "23514"))
    else none
refusal t (set_response k resource status body) = none

unfoldable pub first_refusal : Tables → List Write → Option Exn
unfolding refusal
first_refusal t [] = none
first_refusal t (w ∷ ws) = elim (refusal t w) [ none ↦ first_refusal t ws | some x ↦ some x ]

abbrev pub write_rows : List Write → Option Exn → Memory → Result (Unit {0}) × Memory
write_rows ws none m = (ok tt, record m { changes = m.changes ++ ws; active = true })
write_rows ws (some x) m = (raise x, m)

unfoldable pub flush : List Write → Memory → Result (Unit {0}) × Memory
unfolding statement first_refusal
flush ws = statement (λ m. write_rows ws (first_refusal m.stored ws) m)

unfoldable pub rollback : Memory → Memory
rollback m = record m { changes = []; active = false; clock = suc m.clock }

-- The tables with the open transaction's row changes.
abbrev pub view : Memory → Tables
view m = apply m.clock m.changes m.stored

abbrev pub landed : Memory → Memory
landed m = record m {
  stored = view m;
  changes = [];
  commits = m.commits ++ m.changes ∷ [];
  active = false;
  clock = suc m.clock;
}

abbrev pub settle : Event → Bool → Memory → Result (Unit {0}) × Memory
settle e false m = (raise (integrity_error (some "23514")), m)
settle calm true m = (ok tt, landed m)
settle (fail x) true m = (raise (foreign x), m)
settle (other ws) true m = (ok tt, landed m)
settle lose true m = (raise (other_exception "ConnectionLost"), landed m)

unfoldable pub commit : Memory → Result (Unit {0}) × Memory
commit m = settle (head_event m.events) (trigger_passes m.changes (view m).ledger_entries) (tick m)

unfoldable pub get_key : String → Memory → Result (Option IdempotencyKey) × Memory
unfolding statement
get_key k = statement (λ m. (ok (find_key k m.stored.idempotency_keys), m))

unfoldable pub get_account : ℕ → Memory → Result (Option Account) × Memory
unfolding statement
get_account i = statement (λ m. (ok (find_account i m.stored.accounts), m))

unfoldable pub lock_account : ℕ → Memory → Result (Option Account) × Memory
unfolding statement
lock_account i =
    statement (λ m. (ok (find_account i m.stored.accounts), record m { active = true }))

unfoldable pub select_entries : Memory → Result (List LedgerEntry) × Memory
unfolding statement
select_entries = statement (λ m. (ok m.stored.ledger_entries, m))

abbrev pub or_invalid : Option Account → Memory → Result Account × Memory
or_invalid none m = (raise (other_exception "InvalidRequestError"), m)
or_invalid (some a) m = (ok a, m)

-- This statement and the next run inside a transaction that has written: no event but a failure
-- touches them.
abbrev pub inside : {A : Type 0} → Event → (Memory → Result A × Memory) → Memory → Result A × Memory
inside (fail x) run m = (raise (foreign x), m)
inside _ run m = run m

unfoldable pub refresh : Account → Memory → Result Account × Memory
refresh a m =
    inside (head_event m.events) (λ n. or_invalid (find_account a.id (view n).accounts) n) (tick m)

unfoldable pub now : Memory → Result ℕ × Memory
now m = inside (head_event m.events) (λ n. (ok n.clock, n)) (tick m)

unfoldable pub uuid4 : Memory → ℕ × Memory
uuid4 m = (m.next_id, record m { next_id = suc m.next_id })
