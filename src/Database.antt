-- ===== src/Database.antt =====
-- The database session that the services work through: `sqlalchemy.orm.Session` on PostgreSQL at
-- READ COMMITTED. Neither is code of the repository, so the session is a parameter, `Engine`, with
-- the documented behaviour that the services rely on as its laws.
pub mod Exec
pub mod Quiet
pub mod Rules
pub mod Sessions
use chekin_interview.Base.{ℕ, String, ◌≡◌, ◌≢◌, true, List, [], ◌∷◌, ◌++◌, Option, none, some, ◌⊎◌}
use chekin_interview.Errors.{Exn, operational_error, other_exception}
use chekin_interview.Models.{
  Account, IdempotencyKey, LedgerEntry, Tables, Write, add_key, add_account, find_account, find_key,
  apply, LeavesAccounts,
}
use chekin_interview.Models.Constraints.{admits, trigger_passes}
use Exec.{Result, ok, raise}

-- A row that a transaction can hold: an account's row under FOR UPDATE, or a primary key that it
-- has inserted and not yet committed.
pub data Row : Type 0 where
  account_row : ℕ → Row
  key_row : String → Row

-- Two states of the committed tables agree on a row.
abbrev pub SameRow : Row → Tables → Tables → Type 0
SameRow (account_row i) t u = find_account i t.accounts ≡ find_account i u.accounts
SameRow (key_row k) t u = find_key k t.idempotency_keys ≡ find_key k u.idempotency_keys

-- What the laws speak of and no service reads: the committed tables, the row changes that the open
-- transaction has made, the rows that it holds, and the transactions that this session has
-- committed so far, each with its row changes.
pub record Ghost (S : Type 0) : Type 1 where
  pub committed : S → Tables
  -- The time of the open transaction, which `now()` returns throughout it.
  pub time : S → ℕ
  pub pending : S → List Write
  pub own : S → List (List Write)
  pub Held : S → Row → Type 0

-- What a statement of an open transaction leaves as it was. Other sessions may commit at any time,
-- but not to a row that this one holds.
pub record Within {S : Type 0} (g : Ghost S) (s s' : S) : Type 0 where
  pub own_kept : g.own s' ≡ g.own s
  pub held_kept : (r : Row) → g.Held s r → g.Held s' r
  pub rows_kept : (r : Row) → g.Held s r → SameRow r (g.committed s) (g.committed s')
  pub begun_kept : g.pending s ≢ [] → g.pending s' ≢ []
  pub time_kept : g.pending s ≢ [] → g.time s' ≡ g.time s

-- A call's two ways to end.
abbrev pub Ends : {S A : Type 0} → (A → S → Type 0) → (Exn → S → Type 0) → Result A × S → Type 0
Ends Q E (ok a, s) = Q a s
Ends Q E (raise x, s) = E x s

-- The rows that a statement must hold after it has written: a duplicate of a key waits for the
-- transaction that inserted it.
abbrev pub Claims : {S : Type 0} → Ghost S → S → Write → Type 0
Claims g s (add_key r) =
    g.Held s (key_row r.key) × (find_key r.key (g.committed s).idempotency_keys ≡ none)
Claims g s (add_account a) =
    g.Held s (account_row a.id) × (find_account a.id (g.committed s).accounts ≡ none)
Claims g s _ = Unit

abbrev pub All {ℓ κ} : {A : Type ℓ} → (A → Type κ) → List A → Type κ
All P [] = Unit
All P (x ∷ xs) = P x × All P xs

-- An exception that says nothing of the server's answer.
abbrev pub IsLost : Exn → Type 0
IsLost (operational_error none) = Unit
IsLost (other_exception _) = Unit
IsLost _ = ⊥

-- How a commit can end. `t` is the state that it commits onto.
pub record Committed {S : Type 0} (g : Ghost S) (s s' : S) : Type 0 where
  pub onto : Tables
  pub rows_kept : (r : Row) → g.Held s r → SameRow r (g.committed s) onto
  pub written : g.committed s' ≡ apply (g.time s) (g.pending s) onto
  pub own_added : g.own s' ≡ g.own s ++ g.pending s ∷ []
  pub triggered :
      trigger_passes (g.pending s) (apply (g.time s) (g.pending s) onto).ledger_entries ≡ true

pub record Engine : Type 1 where
  pub Session : Type 0
  pub ghost : Ghost Session
  -- `db.get(IdempotencyKey, key)`
  pub get_key : String → Session → Result (Option IdempotencyKey) × Session
  -- `db.get(Account, account_id)`
  pub get_account : ℕ → Session → Result (Option Account) × Session
  -- `select(Account).where(Account.id == …).with_for_update()` with `populate_existing`
  pub lock_account : ℕ → Session → Result (Option Account) × Session
  -- The statements of `db.flush()`.
  pub flush : List Write → Session → Result (Unit {0}) × Session
  pub commit : Session → Result (Unit {0}) × Session
  pub rollback : Session → Session
  -- `db.refresh(account)`
  pub refresh : Account → Session → Result Account × Session
  -- `func.now()`: the time of the transaction.
  pub now : Session → Result ℕ × Session
  -- `uuid.uuid4()`
  pub uuid4 : Session → ℕ × Session
  -- The rows of `ledger_entries` that a query reads.
  pub select_entries : Session → Result (List LedgerEntry) × Session
  -- Outside a transaction's writes a read sees the committed row of its moment.
  pub get_key_reads :
      (k : String) (s : Session)
      → ghost.pending s ≡ []
      → Ends
          (λ r s'.
            (r ≡ find_key k (ghost.committed s').idempotency_keys) × (ghost.own s' ≡ ghost.own s))
          (λ x s'. ghost.own s' ≡ ghost.own s)
          (get_key k s)
  pub get_account_reads :
      (i : ℕ) (s : Session)
      → ghost.pending s ≡ []
      → Ends
          (λ r s'.
            (r ≡ find_account i (ghost.committed s').accounts) × (ghost.own s' ≡ ghost.own s))
          (λ x s'. ghost.own s' ≡ ghost.own s)
          (get_account i s)
  pub get_account_idle :
      (i : ℕ) (s : Session) → ghost.pending s ≡ [] → ghost.pending (get_account i s).1 ≡ []
  pub select_entries_reads :
      (s : Session)
      → ghost.pending s ≡ []
      → Ends
          (λ r s'. (r ≡ (ghost.committed s').ledger_entries) × (ghost.own s' ≡ ghost.own s))
          (λ x s'. ghost.own s' ≡ ghost.own s)
          (select_entries s)
  -- A row that FOR UPDATE returns is held until the transaction ends, and is the committed one, if
  -- the transaction has changed no account.
  pub lock_account_holds :
      (i : ℕ) (s : Session)
      → LeavesAccounts (ghost.pending s)
      → Ends
          (λ r s'.
            Within ghost s s'
            × (ghost.pending s' ≡ ghost.pending s)
            × ((a : Account)
                → r ≡ some a
                → ghost.Held s' (account_row i)
                  × (find_account i (ghost.committed s').accounts ≡ some a)))
          (λ x s'. ghost.own s' ≡ ghost.own s)
          (lock_account i s)
  -- A flush that returns has made its row changes, which the constraints admit.
  pub flush_writes :
      (ws : List Write) (s : Session)
      → Ends
          (λ r s'.
            Within ghost s s'
            × (ghost.pending s' ≡ ghost.pending s ++ ws)
            × All (λ w. admits w ≡ true) ws
            × All (Claims ghost s') ws)
          (λ x s'. ghost.own s' ≡ ghost.own s)
          (flush ws s)
  -- A commit that raises has committed nothing, or it has committed as one that returns, and the
  -- answer of the server was lost: then the error has no SQLSTATE, as `IsLost` says.
  pub commit_lands :
      (s : Session)
      → Ends
          (λ r s'. Committed ghost s s')
          (λ x s'. (ghost.own s' ≡ ghost.own s) ⊎ (IsLost x × Committed ghost s s'))
          (commit s)
  pub rollback_ends :
      (s : Session) → (ghost.pending (rollback s) ≡ []) × (ghost.own (rollback s) ≡ ghost.own s)
  -- The row as the transaction sees it, its own changes included.
  pub refresh_reads :
      (a : Account) (s : Session)
      → Ends
          (λ r s'.
            Within ghost s s'
            × (ghost.pending s' ≡ ghost.pending s)
            × (find_account a.id
                  (apply (ghost.time s') (ghost.pending s') (ghost.committed s')).accounts
                ≡ some r))
          (λ x s'. ghost.own s' ≡ ghost.own s)
          (refresh a s)
  pub now_reads :
      (s : Session)
      → Ends
          (λ r s'. Within ghost s s' × (ghost.pending s' ≡ ghost.pending s) × (r ≡ ghost.time s'))
          (λ x s'. ghost.own s' ≡ ghost.own s)
          (now s)
  -- An id is made in the process, without the database.
  pub uuid4_local :
      (s : Session)
      → let (i, s') = uuid4 s in Within ghost s s' × (ghost.pending s' ≡ ghost.pending s)
