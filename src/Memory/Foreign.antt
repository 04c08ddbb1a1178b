-- ===== src/Memory/Foreign.antt =====
-- The engine in memory raises no domain errors of the application.
use chekin_interview.Base.{
  Bool, true, false, Option, none, some, List, [], ◌∷◌, Bool-cases, not, inl, inr,
}
use chekin_interview.Errors.{
  Exn, ledger, integrity_error, data_error, operational_error, other_exception,
}
use chekin_interview.Models.{
  Account, Tables, Write, add_key, add_account, add_entry, set_balance, set_response, find_account,
  find_key,
}
use chekin_interview.Models.Constraints.{admits, fits_money}
use chekin_interview.Database.Exec.{Result}
use chekin_interview.Idempotency.Kinds.{IsTold, Raises, RaisesForeign}
use chekin_interview.Memory.{
  Memory, Event, calm, fail, other, lose, head_event, tick, interfere, foreign, at_event, inside,
  settle, statement, refusal, first_refusal, write_rows, or_invalid, flush, commit, get_key,
  get_account, lock_account, refresh, now,
}
use chekin_interview.Memory.Laws.{memory}

foreign-IsTold : (x : Exn) → IsTold [] (foreign x)
foreign-IsTold (ledger x) = tt
foreign-IsTold (integrity_error x) = tt
foreign-IsTold (data_error x) = tt
foreign-IsTold (operational_error x) = tt
foreign-IsTold (other_exception x) = tt

statement-Raises :
    {A : Type 0} (run : Memory → Result A × Memory) (m : Memory)
    → ((n : Memory) → Raises [] (run n))
    → Raises [] (statement run m)
unfolding statement
statement-Raises run m h = at (head_event m.events)
  where
    at : (v : Event) → Raises [] (at_event v run (tick m))
    at calm = h (tick m)
    at (fail x) = foreign-IsTold x
    at (other ws) = h (interfere ws (tick m))
    at lose = h (tick m)

inside-Raises :
    {A : Type 0} (v : Event) (run : Memory → Result A × Memory) (m : Memory)
    → Raises [] (run m)
    → Raises [] (inside v run m)
inside-Raises calm run m h = h
inside-Raises (fail x) run m h = foreign-IsTold x
inside-Raises (other ws) run m h = h
inside-Raises lose run m h = h

settle-Raises : (v : Event) (b : Bool) (m : Memory) → Raises [] (settle v b m)
settle-Raises v false m = tt
settle-Raises calm true m = tt
settle-Raises (fail x) true m = foreign-IsTold x
settle-Raises (other ws) true m = tt
settle-Raises lose true m = tt

-- A refusal is the server's.
abbrev IsServers : Option Exn → Type 0
IsServers none = Unit
IsServers (some x) = IsTold [] x

duplicate-IsServers :
    {A : Type 0} (o : Option A)
    → IsServers (elim o [ none ↦ none | some x ↦ some (integrity_error (some "23505")) ])
duplicate-IsServers none = tt
duplicate-IsServers (some x) = tt

refusal-IsServers : (t : Tables) (w : Write) → IsServers (refusal t w)
unfolding refusal
refusal-IsServers t (add_key r) = elim (Bool-cases (not (admits (add_key r)))) [
  | inl p ↦ rw p tt
  | inr p ↦ rw p (duplicate-IsServers (find_key r.key t.idempotency_keys))
]
refusal-IsServers t (add_account a) = elim (Bool-cases (not (admits (add_account a)))) [
  | inl p ↦ rw p tt
  | inr p ↦ rw p (duplicate-IsServers (find_account a.id t.accounts))
]
refusal-IsServers t (add_entry l) = elim (Bool-cases (not (admits (add_entry l)))) [
  | inl p ↦ rw p tt
  | inr p ↦ rw p tt
]
refusal-IsServers t (set_balance i v) = elim (Bool-cases (not (fits_money v))) [
  | inl p ↦ rw p tt
  | inr p ↦
      rw p
        (elim (Bool-cases (not (admits (set_balance i v)))) [ inl q ↦ rw q tt | inr q ↦ rw q tt ])
]
refusal-IsServers t (set_response k resource status body) = tt

first_refusal-IsServers : (t : Tables) (ws : List Write) → IsServers (first_refusal t ws)
unfolding first_refusal
first_refusal-IsServers t [] = tt
first_refusal-IsServers t (w ∷ ws) =
    first (refusal t w) (refusal-IsServers t w) (first_refusal-IsServers t ws)
  where
    first :
        (o : Option Exn)
        → IsServers o
        → IsServers (first_refusal t ws)
        → IsServers (elim o [ none ↦ first_refusal t ws | some x ↦ some x ])
    first none h k = k
    first (some x) h k = h

write_rows-Raises :
    (ws : List Write) (o : Option Exn) (m : Memory) → IsServers o → Raises [] (write_rows ws o m)
write_rows-Raises ws none m h = tt
write_rows-Raises ws (some x) m h = h

or_invalid-Raises : (o : Option Account) (m : Memory) → Raises [] (or_invalid o m)
or_invalid-Raises none m = tt
or_invalid-Raises (some a) m = tt

pub memory-RaisesForeign : RaisesForeign memory
unfolding flush commit get_key get_account lock_account refresh now
memory-RaisesForeign = record {
  get_key = λ k s. statement-Raises _ s (λ n. tt);
  get_account = λ i s. statement-Raises _ s (λ n. tt);
  lock_account = λ i s. statement-Raises _ s (λ n. tt);
  flush = λ ws s. statement-Raises _ s (λ n.
      write_rows-Raises ws (first_refusal n.stored ws) n (first_refusal-IsServers n.stored ws));
  commit = λ s. settle-Raises (head_event s.events) _ (tick s);
  refresh = λ a s. inside-Raises (head_event s.events) _ (tick s) (or_invalid-Raises _ (tick s));
  now = λ s. inside-Raises (head_event s.events) _ (tick s) tt;
}
