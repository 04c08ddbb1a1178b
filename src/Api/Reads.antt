-- ===== src/Api/Reads.antt =====
-- The two endpoints that read: a balance and a history.
use chekin_interview.Base.{ℕ, ◌≡◌, refl, ap, sym, ◌∙◌, Option, none, some, List, []}
use chekin_interview.Errors.{Exn}
use chekin_interview.Models.{Account, LedgerEntry, find_account}
use chekin_interview.Models.Lookup.{find_account-id}
use chekin_interview.Schemas.{Codec, TransactionItem, dump_balance_response}
use chekin_interview.Database.{Engine, Ends}
use chekin_interview.Database.Exec.{Result, ok, raise, pure, follow}
use chekin_interview.Database.Rules.{Ends-bind}
use chekin_interview.Transfers.{not_found}
use chekin_interview.Accounts.{read_account}
use chekin_interview.Accounts.History.{history_rows, to_items}
use chekin_interview.Accounts.History
use chekin_interview.Api.{Response, plain, transactions_body, get_balance, list_transactions}

module _ (e : Engine) (c : Codec) (i : ℕ) where
  open e use {Session, ghost}

  -- Why a read fails: the account's row was asked for and missing then, or the database failed.
  pub data IsReadFailure (s : Session) (x : Exn) : Type 0 where
    unknown :
        (at : Session)
        → e.get_account i s ≡ (ok none, at)
        → find_account i (ghost.committed at).accounts ≡ none
        → x ≡ not_found c i
        → IsReadFailure s x
    account_failed : (at : Session) → e.get_account i s ≡ (raise x, at) → IsReadFailure s x
    entries_failed :
        (account : Account) (at after : Session)
        → e.get_account i s ≡ (ok (some account), at)
        → find_account i (ghost.committed at).accounts ≡ some account
        → e.select_entries at ≡ (raise x, after)
        → IsReadFailure s x

  -- A read commits nothing.
  pub record FailedRead (s : Session) (x : Exn) (s' : Session) : Type 0 where
    pub own_kept : ghost.own s' ≡ ghost.own s
    pub why : IsReadFailure s x

  -- An account that the committed tables had at one moment.
  pub record Found (s : Session) (a : Account) (s' : Session) : Type 0 where
    pub own_kept : ghost.own s' ≡ ghost.own s
    pub idle : ghost.pending s' ≡ []
    pub read : e.get_account i s ≡ (ok (some a), s')
    pub found : find_account i (ghost.committed s').accounts ≡ some a

  read_account-Ends :
      (s : Session) → ghost.pending s ≡ [] → Ends (Found s) (FailedRead s) (read_account e c i s)
  unfolding read_account
  read_account-Ends s idle =
      go (e.get_account i s) refl (e.get_account_reads i s idle) (e.get_account_idle i s idle)
    where
      go :
          (r : Result (Option Account) × Session)
          → e.get_account i s ≡ r
          → Ends
              (λ o t.
                (o ≡ find_account i (ghost.committed t).accounts) × (ghost.own t ≡ ghost.own s))
              (λ x t. ghost.own t ≡ ghost.own s)
              r
          → ghost.pending r.1 ≡ []
          → Ends (Found s) (FailedRead s) (
              follow
                (λ found. elim found [ none ↦ (λ t. (raise (not_found c i), t)) | some a ↦ pure a ])
                r)
      go (raise x, t) p kept q = record { own_kept = kept; why = account_failed t p }
      go (ok none, t) p (same, kept) q = record {
        own_kept = kept;
        why = unknown t p (sym same) refl;
      }
      go (ok (some a), t) p (same, kept) q = record {
        own_kept = kept;
        idle = q;
        read = p;
        found = sym same;
      }

  -- What GET /accounts/{id}/balance answers: the balance of the account's committed row.
  pub record Balance (s : Session) (r : Response) (s' : Session) : Type 0 where
    pub own_kept : ghost.own s' ≡ ghost.own s
    pub account : Account
    pub found : find_account i (ghost.committed s').accounts ≡ some account
    pub response : r ≡ plain (dump_balance_response c i account.balance)

  -- GET /accounts/{id}/balance on a session with nothing pending: a response has the balance of the
  -- row that is committed at that moment; an error is the database's, or says
  -- that no account has the id, and the read of this call has found none committed. Nothing is committed.
  pub get_balance-Ends :
      (s : Session) → ghost.pending s ≡ [] → Ends (Balance s) (FailedRead s) (get_balance e c i s)
  unfolding get_balance
  get_balance-Ends s idle =
      Ends-bind (Found s) (Balance s) (FailedRead s)
        (λ a. pure (plain (dump_balance_response c a.id a.balance))) (read_account e c i s)
        (read_account-Ends s idle)
        (λ a t f. record {
          own_kept = f.own_kept;
          account = a;
          found = f.found;
          response =
              ap (λ j. plain (dump_balance_response c j a.balance))
                (find_account-id i a (ghost.committed t).accounts f.found);
        })

  -- The items of a history, and the account that the call has found just before: `at` is its session
  -- between the two reads.
  pub record Listed (s : Session) (items : List TransactionItem) (s' : Session) : Type 0 where
    pub own_kept : ghost.own s' ≡ ghost.own s
    pub account : Account
    pub at : Session
    pub read : e.get_account i s ≡ (ok (some account), at)
    pub entries : e.select_entries at ≡ (ok (ghost.committed s').ledger_entries, s')
    pub found : find_account i (ghost.committed at).accounts ≡ some account
    pub items_of : items ≡ to_items (history_rows i (ghost.committed s').ledger_entries)

  entries-Ends :
      (s : Session) (a : Account) (t : Session)
      → Found s a t
      → (r : Result (List LedgerEntry) × Session) → e.select_entries t ≡ r
      → Ends
          (λ l u. (l ≡ (ghost.committed u).ledger_entries) × (ghost.own u ≡ ghost.own t))
          (λ x u. ghost.own u ≡ ghost.own t)
          r
      → Ends (Listed s) (FailedRead s) (follow (λ l. pure (to_items (history_rows i l))) r)
  entries-Ends s a t f (raise x, u) p kept = record {
    own_kept = kept ∙ f.own_kept;
    why = entries_failed a t u f.read f.found p;
  }
  entries-Ends s a t f (ok l, u) p (same, kept) = record {
    own_kept = kept ∙ f.own_kept;
    account = a;
    at = t;
    read = f.read;
    entries = p ∙ ap (λ l. (ok l, u)) same;
    found = f.found;
    items_of = ap (λ l. to_items (history_rows i l)) same;
  }

  items-Ends :
      (s : Session)
      → ghost.pending s ≡ []
      → Ends (Listed s) (FailedRead s) (History.list_transactions e c i s)
  unfolding History.list_transactions
  items-Ends s idle =
      Ends-bind (Found s) (Listed s) (FailedRead s) _ (read_account e c i s)
        (read_account-Ends s idle)
        (λ a t f. entries-Ends s a t f (e.select_entries t) refl (e.select_entries_reads t f.idle))

  -- What GET /accounts/{id}/transactions answers: the account was there, and the items are the
  -- history in the entries that are committed then.
  abbrev pub Shows : Session → Response → Session → Type 0
  Shows s r s' =
      (items : List TransactionItem) × Listed s items s' × (r ≡ plain (transactions_body c i items))

  -- GET /accounts/{id}/transactions on a session with nothing pending: a response has the history in
  -- the entries that are committed at that moment, of an account that the call has found
  -- committed just before; an error is the database's, or says that no account has the id, and the read
  -- of this call has found none committed. Nothing is committed.
  pub list_transactions-Ends :
      (s : Session)
      → ghost.pending s ≡ []
      → Ends (Shows s) (FailedRead s) (list_transactions e c i s)
  unfolding list_transactions
  list_transactions-Ends s idle =
      Ends-bind (Listed s) (Shows s) (FailedRead s)
        (λ items. pure (plain (transactions_body c i items))) (History.list_transactions e c i s)
        (items-Ends s idle) (λ items t x. (items, x, refl))
