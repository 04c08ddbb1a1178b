-- ===== src/Memory/Calm.antt =====
-- The engine in memory without events is a database that nothing disturbs.
use chekin_interview.Base.{
  ℕ, suc, ◌<◌, ◌≤◌, ◌≢◌, arith, both_true, ◌≡◌, refl, ◌∙◌, ap, true, none, List, [], ◌∷◌, ◌++◌,
}
use chekin_interview.Models.{
  LedgerEntry, Tables, Write, add_key, add_account, add_entry, set_balance, set_response,
  find_account, find_key, apply,
}
use chekin_interview.Models.Constraints.{admits, fits_money, is_non_negative, trigger_passes}
use chekin_interview.Database.{All}
use chekin_interview.Database.Exec.{Result, ok}
use chekin_interview.Database.Quiet.{Quiet, IsUnused}
use chekin_interview.Memory.{
  Memory, tick, statement, refusal, first_refusal, write_rows, landed, view, flush, commit,
  rollback, get_key, lock_account, now, uuid4,
}
use chekin_interview.Memory.Laws.{memory}

-- A session on the tables `t`, before which nothing happens.
pub record IsCalm (t : Tables) (ws : List Write) (m : Memory) : Type 0 where
  pub no_events : m.events ≡ []
  pub tables : m.stored ≡ t
  pub made : m.changes ≡ ws
  -- The ids of the entries were drawn before.
  pub drawn : All (λ x. x.id < m.next_id) t.ledger_entries

drawn_below :
    (n k : ℕ) (entries : List LedgerEntry)
    → n ≤ k
    → All (λ x. x.id < n) entries
    → All (λ x. x.id < k) entries
drawn_below n k [] le h = tt
drawn_below n k (x ∷ xs) le h = (omega (arith, le, h.0), drawn_below n k xs le h.1)

drawn-ne :
    (n : ℕ) (entries : List LedgerEntry) → All (λ x. x.id < n) entries → All (λ x. x.id ≢ n) entries
drawn-ne n [] h = tt
drawn-ne n (x ∷ xs) h = ((λ p. omega (arith, h.0, p)), drawn-ne n xs h.1)

statement-calm :
    {A : Type 0} (run : Memory → Result A × Memory) (m : Memory)
    → m.events ≡ []
    → statement run m ≡ run (tick m)
unfolding statement
statement-calm run m h = rw h refl

ticked : (t : Tables) (ws : List Write) (m : Memory) → IsCalm t ws m → IsCalm t ws (tick m)
ticked t ws m q = record {
  no_events = rw q.no_events refl;
  tables = q.tables;
  made = q.made;
  drawn = q.drawn;
}

refusal-none : (t : Tables) (w : Write) → admits w ≡ true → IsUnused t w → refusal t w ≡ none
unfolding refusal admits
refusal-none t (add_key r) h u = rw (h, u) refl
refusal-none t (add_account a) h u = rw (h, u) refl
refusal-none t (add_entry l) h u = rw h refl
refusal-none t (set_balance i v) h u =
    let (fits, funded) = both_true (fits_money v) (is_non_negative v) h in rw (fits, funded) refl
refusal-none t (set_response k resource status body) h u = refl

first_refusal-none :
    (t : Tables) (ws : List Write)
    → All (λ w. admits w ≡ true) ws
    → All (IsUnused t) ws
    → first_refusal t ws ≡ none
unfolding first_refusal
first_refusal-none t [] h u = refl
first_refusal-none t (w ∷ ws) h u =
    rw (refusal-none t w h.0 u.0, first_refusal) (first_refusal-none t ws h.1 u.1)

pub memory-Quiet : Quiet memory
unfolding flush commit rollback get_key lock_account now uuid4
memory-Quiet = record {
  Calm = IsCalm;
  calm_ghost = λ t ws m q. (q.tables, q.made);
  get_key_calm = λ t k m q. (
    tick m,
    statement-calm _ m q.no_events
        ∙ ap (λ x. (ok (find_key k x.idempotency_keys), tick m)) q.tables,
    ticked t [] m q,
  );
  lock_account_calm = λ t ws i m leaves q. (
    record (tick m) { active = true },
    statement-calm _ m q.no_events
        ∙ ap (λ x. (ok (find_account i x.accounts), record (tick m) { active = true })) q.tables,
    locked t ws m q,
  );
  flush_calm = λ t ws added m h u apart q. (
    record (tick m) { changes = m.changes ++ added; active = true },
    statement-calm _ m q.no_events
        ∙ ap (λ o. write_rows added o (tick m))
            (ap (λ x. first_refusal x added) q.tables ∙ first_refusal-none t added h u),
    written t ws added m q,
  );
  now_calm = λ t ws m q. (m.clock, tick m, rw q.no_events refl, ticked t ws m q);
  uuid4_calm = λ t ws m q. record {
    no_events = q.no_events;
    tables = q.tables;
    made = q.made;
    drawn = drawn_below m.next_id (suc m.next_id) t.ledger_entries (omega arith) q.drawn;
  };
  uuid4_unused = λ t ws m q. drawn-ne m.next_id t.ledger_entries q.drawn;
  uuid4_differs = λ t ws m q h. omega (arith, h);
  rollback_calm = λ t ws m q. record {
    no_events = q.no_events;
    tables = q.tables;
    made = refl;
    drawn = q.drawn;
  };
  commit_calm = λ t ws m h q. (landed (tick m), rw (q.no_events, passes t ws m h q) refl);
}
  where
    locked :
        (t : Tables) (ws : List Write) (m : Memory)
        → IsCalm t ws m
        → IsCalm t ws (record (tick m) { active = true })
    locked t ws m q = record {
      no_events = rw q.no_events refl;
      tables = q.tables;
      made = q.made;
      drawn = q.drawn;
    }

    written :
        (t : Tables) (ws added : List Write) (m : Memory)
        → IsCalm t ws m
        → IsCalm t (ws ++ added) (record (tick m) { changes = m.changes ++ added; active = true })
    written t ws added m q = record {
      no_events = rw q.no_events refl;
      tables = q.tables;
      made = ap (λ l. l ++ added) q.made;
      drawn = q.drawn;
    }

    passes :
        (t : Tables) (ws : List Write) (m : Memory)
        → trigger_passes ws (apply m.clock ws t).ledger_entries ≡ true
        → IsCalm t ws m
        → trigger_passes m.changes (view m).ledger_entries ≡ true
    passes t ws m h q = rw (q.made, q.tables) h

pub calm_of_no_events :
    (m : Memory)
    → m.events ≡ []
    → All (λ x. x.id < m.next_id) m.stored.ledger_entries
    → memory-Quiet.Calm m.stored m.changes m
unfolding memory-Quiet
calm_of_no_events m h drawn = record { no_events = h; tables = refl; made = refl; drawn = drawn }
