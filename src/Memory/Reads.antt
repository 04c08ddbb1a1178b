-- ===== src/Memory/Reads.antt =====
-- The reads of the engine in memory keep the laws of `Engine`.
use chekin_interview.Base.{ℕ, String, ◌≡◌, refl, sym, ◌∙◌, true, Option, none, some, List, [], suc}
use chekin_interview.Models.{Account, Write, find_account, find_key, LeavesAccounts}
use chekin_interview.Database.{account_row, Within, Ends}
use chekin_interview.Database.Exec.{Result, ok}
use chekin_interview.Database.Rules.{SameRow-refl, Within-trans}
use chekin_interview.Memory.{
  Event, calm, fail, other, lose, Memory, ghost, head_event, tick, interfere, at_event, statement,
  view, get_key, get_account, lock_account, select_entries, or_invalid, inside, refresh, now, uuid4,
}

-- A state that differs only in what no law reads.
pub Within-same :
    (m n : Memory)
    → n.commits ≡ m.commits
    → n.stored ≡ m.stored
    → n.changes ≡ m.changes
    → n.clock ≡ m.clock
    → (m.active ≡ true → n.active ≡ true)
    → Within ghost m n
Within-same m n own stored pending time active = record {
  own_kept = own;
  held_kept = λ r h. active h;
  rows_kept = λ r h. rw stored (SameRow-refl r m.stored);
  begun_kept = λ b p. b (sym pending ∙ p);
  time_kept = λ b. time;
}

interfere-Within : (ws : List Write) (m : Memory) → Within ghost m (interfere ws m)
interfere-Within ws m = record {
  own_kept = refl;
  held_kept = λ r h. h;
  rows_kept = λ r h. rw h (SameRow-refl r m.stored);
  begun_kept = λ b p. b p;
  time_kept = λ b. refl;
}

-- A statement whose own effect is within the laws is so at every event.
pub statement-Ends :
    {A : Type 0} (run : Memory → Result A × Memory) (Q : A → Memory → Type 0) (m : Memory)
    → ((n : Memory)
        → Within ghost m n
        → n.changes ≡ m.changes
        → Ends Q (λ x n'. n'.commits ≡ m.commits) (run n))
    → Ends Q (λ x n'. n'.commits ≡ m.commits) (statement run m)
unfolding statement
statement-Ends run Q m h = go (head_event m.events)
  where
    tick-Within : Within ghost m (tick m)
    tick-Within = Within-same m (tick m) refl refl refl refl (λ a. a)

    go : (e : Event) → Ends Q (λ x n'. n'.commits ≡ m.commits) (at_event e run (tick m))
    go calm = h (tick m) tick-Within refl
    go (fail x) = refl
    go (other ws) =
        h (interfere ws (tick m))
          (Within-trans ghost m (tick m) (interfere ws (tick m)) tick-Within
            (interfere-Within ws (tick m)))
          refl
    go lose = h (tick m) tick-Within refl

statement-changes :
    {A : Type 0} (run : Memory → Result A × Memory) (m : Memory)
    → ((n : Memory) → n.changes ≡ [] → (run n).1.changes ≡ [])
    → m.changes ≡ []
    → (statement run m).1.changes ≡ []
unfolding statement
statement-changes run m h idle = at (head_event m.events)
  where
    at : (v : Event) → (at_event v run (tick m)).1.changes ≡ []
    at calm = h (tick m) idle
    at (fail x) = idle
    at (other ws) = h (interfere ws (tick m)) idle
    at lose = h (tick m) idle

pub get_key_reads :
    (k : String) (m : Memory)
    → m.changes ≡ []
    → Ends
        (λ r n. (r ≡ find_key k n.stored.idempotency_keys) × (n.commits ≡ m.commits))
        (λ x n. n.commits ≡ m.commits)
        (get_key k m)
unfolding get_key
get_key_reads k m idle = statement-Ends _ _ m (λ n w same. (refl, w.own_kept))

pub get_account_reads :
    (i : ℕ) (m : Memory)
    → m.changes ≡ []
    → Ends
        (λ r n. (r ≡ find_account i n.stored.accounts) × (n.commits ≡ m.commits))
        (λ x n. n.commits ≡ m.commits)
        (get_account i m)
unfolding get_account
get_account_reads i m idle = statement-Ends _ _ m (λ n w same. (refl, w.own_kept))

pub get_account_idle : (i : ℕ) (m : Memory) → m.changes ≡ [] → (get_account i m).1.changes ≡ []
unfolding get_account
get_account_idle i m idle = statement-changes _ m (λ n h. h) idle

pub select_entries_reads :
    (m : Memory)
    → m.changes ≡ []
    → Ends
        (λ r n. (r ≡ n.stored.ledger_entries) × (n.commits ≡ m.commits))
        (λ x n. n.commits ≡ m.commits)
        (select_entries m)
unfolding select_entries
select_entries_reads m idle = statement-Ends _ _ m (λ n w same. (refl, w.own_kept))

pub lock_account_holds :
    (i : ℕ) (m : Memory)
    → LeavesAccounts m.changes
    → Ends
        (λ r n.
          Within ghost m n
          × (n.changes ≡ m.changes)
          × ((a : Account)
              → r ≡ some a
              → ghost.Held n (account_row i) × (find_account i n.stored.accounts ≡ some a)))
        (λ x n. n.commits ≡ m.commits)
        (lock_account i m)
unfolding lock_account
lock_account_holds i m leaves = statement-Ends _ _ m (λ n w same. (
  Within-trans ghost m n (record n { active = true }) w
      (Within-same n (record n { active = true }) refl refl refl refl (λ a. refl)),
  same,
  λ a p. (refl, p),
))

-- A statement of a transaction that has written, at every event.
inside-Ends :
    {A : Type 0} (run : Memory → Result A × Memory) (Q : A → Memory → Type 0) (m : Memory)
    → Ends Q (λ x n'. n'.commits ≡ m.commits) (run (tick m))
    → (e : Event) → Ends Q (λ x n'. n'.commits ≡ m.commits) (inside e run (tick m))
inside-Ends run Q m h (fail x) = refl
inside-Ends run Q m h calm = h
inside-Ends run Q m h (other ws) = h
inside-Ends run Q m h lose = h

tick-Within : (m : Memory) → Within ghost m (tick m)
tick-Within m = Within-same m (tick m) refl refl refl refl (λ a. a)

or_invalid-Ends :
    (i : ℕ) (m : Memory) (o : Option Account)
    → find_account i (view m).accounts ≡ o
    → Ends
        (λ r n.
          Within ghost m n × (n.changes ≡ m.changes) × (find_account i (view n).accounts ≡ some r))
        (λ x n. n.commits ≡ m.commits)
        (or_invalid o (tick m))
or_invalid-Ends i m none h = refl
or_invalid-Ends i m (some a) h = (tick-Within m, refl, h)

pub refresh_reads :
    (a : Account) (m : Memory)
    → Ends
        (λ r n.
          Within ghost m n
          × (n.changes ≡ m.changes)
          × (find_account a.id (view n).accounts ≡ some r))
        (λ x n. n.commits ≡ m.commits)
        (refresh a m)
unfolding refresh
refresh_reads a m =
    inside-Ends (λ n. or_invalid (find_account a.id (view n).accounts) n) _ m
      (or_invalid-Ends a.id m (find_account a.id (view m).accounts) refl) (head_event m.events)

pub now_reads :
    (m : Memory)
    → Ends
        (λ r n. Within ghost m n × (n.changes ≡ m.changes) × (r ≡ n.clock))
        (λ x n. n.commits ≡ m.commits)
        (now m)
unfolding now
now_reads m =
    inside-Ends (λ n. (ok n.clock, n)) _ m (tick-Within m, refl, refl) (head_event m.events)

pub uuid4_local : (m : Memory) → let (i, n) = uuid4 m in Within ghost m n × (n.changes ≡ m.changes)
unfolding uuid4
uuid4_local m =
    (Within-same m (record m { next_id = suc m.next_id }) refl refl refl refl (λ a. a), refl)
