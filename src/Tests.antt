-- ===== src/Tests.antt =====
-- Runs of the services on the engine in memory, and the theorems at concrete inputs.
mod Samples
mod Witnesses
mod ApiWitnesses
mod LockWitnesses
mod RequestWitnesses
mod ProgressWitness
mod LogWitnesses
mod LossWitness
mod BodyWitness
mod Defaults
mod MigrationWitness
use Prim.Native.String.{◌++◌}
use mathlib.Core.List.{map}
use chekin_interview.Base.{
  ℕ, suc, String, ◌≡◌, refl, Bool, true, false, Option, none, some, List, [], ◌∷◌,
}
use chekin_interview.Base.Int.{pos, negsuc, ◌+ℤ◌, ◌-ℤ◌}
use chekin_interview.Json.{
  Json, null, num, decimal, bool, str, arr, obj, Items, nil, cons, Fields, end, field,
}
use chekin_interview.Errors.{Exn, operational_error}
use chekin_interview.Models.{
  Account, IdempotencyKey, LedgerEntry, Tables, Write, add_key, find_key, find_account,
  update_balance, update_response,
}
use chekin_interview.Models.Constraints.{trigger_passes, admits, conserves_money, leg_sum}
use chekin_interview.Schemas.{
  Codec, TransferRequest, CreateAccountRequest, dump_transfer_request, dump_transfer_response,
  dump_account_response, dump_create_request,
}
use chekin_interview.Schemas.Money.{digit, digits, money_text, whole}
use chekin_interview.Database.{Engine}
use chekin_interview.Database.Exec.{Result, ok, raise}
use chekin_interview.Idempotency.{
  Outcome, fingerprint, replay, execute_once, conflict, handle_failure, replay_existing,
  claim_and_perform, replay_winner, recover, busy,
}
use chekin_interview.Transfers.{
  sorted, lock_each, lock_accounts, move_money, execute_transfer, get_item, or_key_error, legs,
  same_account, short_of_funds, not_found,
}
use chekin_interview.Accounts.{create_account, open_account}
use chekin_interview.Memory.{
  Memory, Event, calm, fail, other, lose, flush, commit, rollback, get_key, lock_account, refresh,
  now, uuid4,
}
use chekin_interview.Memory.Laws.{memory}

-- A rendering for the tests: the texts are not those of pydantic, but they tell values apart.
abbrev mutual
  render : Json → String
  render null = "null"
  render (num n) = "#"
  render (decimal t) = "#" ++ t
  render (bool true) = "true"
  render (bool false) = "false"
  render (str s) = "'" ++ s ++ "'"
  render (arr xs) = "[" ++ render_items xs ++ "]"
  render (obj fs) = "{" ++ render_fields fs ++ "}"

  render_items : Items → String
  render_items nil = ""
  render_items (cons x xs) = render x ++ "," ++ render_items xs

  render_fields : Fields → String
  render_fields end = ""
  render_fields (field k v fs) = k ++ ":" ++ render v ++ "," ++ render_fields fs

-- The keys of an object in the opposite order, as an example of a column that keeps no order.
abbrev turn : Fields → Fields → Fields
turn end made = made
turn (field k v fs) made = turn fs (field k v made)

abbrev turned : Json → Json
turned (obj fs) = obj (turn fs end)
turned j = j

number : ℕ → String
unfolding whole
number n = whole n ""

pub codec : Codec
unfolding number
codec = record {
  uuid_text = number;
  time_text = number;
  dumps = render;
  sha256 = λ s. s;
  jsonb = turned;
}

abbrev account : ℕ → ℕ → Account
account i balance = record {
  id = i;
  balance = pos balance;
  opening_balance = pos balance;
  created_at = 0;
}

-- Two accounts, with 50.0000 and nothing.
abbrev bank : Tables
bank = record {
  accounts = account 9 500000 ∷ account 4 0 ∷ [];
  ledger_entries = [];
  idempotency_keys = [];
}

abbrev session : Tables → List Event → Memory
session t events = record {
  stored = t;
  clock = 70;
  changes = [];
  commits = [];
  active = false;
  next_id = 100;
  events = events;
}

abbrev pay : ℕ → ℕ → ℕ → TransferRequest
pay a b x = record { from_account_id = a; to_account_id = b; amount = pos x }

abbrev raised : Result Outcome → List Exn
raised (ok o) = []
raised (raise x) = x ∷ []

-- 12.5000 from account 9 to account 4.
abbrev first : Result Outcome × Memory
first = execute_transfer memory codec "k1" (pay 9 4 125000) (session bank [])

-- What a run has to compute through.
pub runs : Unit {0}
unfolding execute_transfer execute_once create_account open_account move_money lock_accounts codec
    flush commit rollback get_key lock_account refresh now uuid4 replay_existing find_key
    claim_and_perform admits dump_transfer_request dump_create_request digit money_text lock_each
    find_account or_key_error get_item ◌-ℤ◌ ◌+ℤ◌ trigger_passes conserves_money leg_sum
    update_balance update_response replay replay_winner handle_failure recover conflict
    dump_transfer_response dump_account_response
runs = tt

abbrev status : Result Outcome → ℕ
status (ok o) = o.status_code
status (raise x) = 0

-- The new balances, and one transaction of two entries.
first-tables :
    (status first.0 ≡ 201)
    × (map (λ (a : Account). a.balance) first.1.stored.accounts ≡ pos 375000 ∷ pos 125000 ∷ [])
    × (map (λ (l : LedgerEntry). l.amount) first.1.stored.ledger_entries
        ≡ pos 125000 ∷ negsuc 124999 ∷ [])
unfolding runs
first-tables = (refl, refl, refl)

-- The same request again, on another session, and a different one under its key.
abbrev again : Result Outcome × Memory
again = execute_transfer memory codec "k1" (pay 9 4 125000) (session first.1.stored [])

abbrev recycled : Result Outcome × Memory
recycled = execute_transfer memory codec "k1" (pay 9 4 1) (session first.1.stored [])

again-replays : (status again.0 ≡ 200) × (again.1.commits ≡ [])
unfolding runs
again-replays = (refl, refl)

recycled-conflicts : map conflict first.1.stored.idempotency_keys ≡ raised recycled.0
unfolding runs
recycled-conflicts = refl

-- More than the source has.
overdraft :
    raised (execute_transfer memory codec "k2" (pay 4 9 1) (session bank [])).0
    ≡ short_of_funds codec (account 4 0) (pos 1) ∷ []
unfolding runs
overdraft = refl

unknown_account :
    raised (execute_transfer memory codec "k2" (pay 9 5 1) (session bank [])).0
    ≡ not_found codec 5 ∷ []
unfolding runs
unknown_account = refl

-- The winner's record, committed after this request's fast path.
abbrev winner : List Event
winner = calm ∷ other (map add_key first.1.stored.idempotency_keys) ∷ []

race :
    (status (execute_transfer memory codec "k1" (pay 9 4 125000) (session bank winner)).0 ≡ 200)
    × ((execute_transfer memory codec "k1" (pay 9 4 125000) (session bank winner)).1.commits ≡ [])
unfolding runs
race = (refl, refl)

-- A lock that is not granted in time, and a commit whose answer is lost.
lock_wait :
    raised
      (execute_transfer memory codec "k1"
        (pay 9 4 1)
        (session bank (calm ∷ calm ∷ fail (operational_error (some "55P03")) ∷ []))).0
    ≡ busy ∷ []
unfolding runs
lock_wait = refl

abbrev unanswered : List Event
unanswered = calm ∷ calm ∷ calm ∷ calm ∷ calm ∷ calm ∷ lose ∷ []

lost_answer :
    map
      (λ (a : Account). a.balance)
      (execute_transfer memory codec "k1"
        (pay 9 4 500000)
        (session bank unanswered)).1.stored.accounts
    ≡ pos 0 ∷ pos 500000 ∷ []
unfolding runs
lost_answer = refl

abbrev opening : Result Outcome × Memory
opening =
    create_account memory codec "k3" (record { initial_balance = pos 5000000 }) (session bank [])

opening-opens :
    (status opening.0 ≡ 201)
    × (map (λ (a : Account). a.id) opening.1.stored.accounts ≡ 100 ∷ 9 ∷ 4 ∷ [])
unfolding runs
opening-opens = (refl, refl)
