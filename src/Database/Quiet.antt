-- ===== src/Database/Quiet.antt =====
-- A database that nothing disturbs: no other session commits, no statement fails that breaks no
-- constraint, and no answer is lost.
use chekin_interview.Base.{ℕ, String, ◌≡◌, ◌≢◌, none, true, List, [], ◌∷◌, ◌++◌}
use chekin_interview.Models.{
  Tables, Write, add_key, add_account, add_entry, find_account, find_key, apply, LeavesAccounts,
}
use chekin_interview.Models.Constraints.{admits, trigger_passes}
use chekin_interview.Database.{Engine, All}
use chekin_interview.Database.Exec.{ok}

-- No committed row has the primary key of a new one, and a new entry's account is there.
abbrev pub IsUnused : Tables → Write → Type 0
IsUnused t (add_key r) = find_key r.key t.idempotency_keys ≡ none
IsUnused t (add_account a) = find_account a.id t.accounts ≡ none
IsUnused t (add_entry l) =
    (find_account l.account_id t.accounts ≢ none) × All (λ x. x.id ≢ l.id) t.ledger_entries
IsUnused t _ = Unit

-- Two row changes that do not insert the same row.
abbrev pub IsApart : Write → Write → Type 0
IsApart (add_key r) (add_key q) = r.key ≢ q.key
IsApart (add_account a) (add_account b) = a.id ≢ b.id
IsApart (add_entry l) (add_entry k) = l.id ≢ k.id
IsApart _ _ = Unit

abbrev pub AreApart : List Write → Type 0
AreApart [] = Unit
AreApart (w ∷ ws) = All (IsApart w) ws × AreApart ws

pub record Quiet (e : Engine) : Type 1 where
  -- The session `s` on the committed tables, with the row changes of its open transaction.
  pub Calm : Tables → List Write → e.Session → Type 0
  pub calm_ghost :
      (t : Tables) (ws : List Write) (s : e.Session)
      → Calm t ws s
      → (e.ghost.committed s ≡ t) × (e.ghost.pending s ≡ ws)
  pub get_key_calm :
      (t : Tables) (k : String) (s : e.Session)
      → Calm t [] s
      → (u : e.Session) × (e.get_key k s ≡ (ok (find_key k t.idempotency_keys), u)) × Calm t [] u
  pub lock_account_calm :
      (t : Tables) (ws : List Write) (i : ℕ) (s : e.Session)
      → LeavesAccounts ws
      → Calm t ws s
      → (u : e.Session) × (e.lock_account i s ≡ (ok (find_account i t.accounts), u)) × Calm t ws u
  pub flush_calm :
      (t : Tables) (ws added : List Write) (s : e.Session)
      → All (λ w. admits w ≡ true) added
      → All (IsUnused t) added
      → AreApart (ws ++ added)
      → Calm t ws s
      → (u : e.Session) × (e.flush added s ≡ (ok tt, u)) × Calm t (ws ++ added) u
  pub now_calm :
      (t : Tables) (ws : List Write) (s : e.Session)
      → Calm t ws s
      → (n : ℕ) × (u : e.Session) × (e.now s ≡ (ok n, u)) × Calm t ws u
  pub uuid4_calm :
      (t : Tables) (ws : List Write) (s : e.Session) → Calm t ws s → Calm t ws (e.uuid4 s).1
  -- The ids that are drawn are new: no entry has one, and two in a row differ.
  pub uuid4_unused :
      (t : Tables) (ws : List Write) (s : e.Session)
      → Calm t ws s
      → All (λ x. x.id ≢ (e.uuid4 s).0) t.ledger_entries
  pub uuid4_differs :
      (t : Tables) (ws : List Write) (s : e.Session)
      → Calm t ws s
      → (e.uuid4 s).0 ≢ (e.uuid4 (e.uuid4 s).1).0
  pub rollback_calm :
      (t : Tables) (ws : List Write) (s : e.Session) → Calm t ws s → Calm t [] (e.rollback s)
  pub commit_calm :
      (t : Tables) (ws : List Write) (s : e.Session)
      → trigger_passes ws (apply (e.ghost.time s) ws t).ledger_entries ≡ true
      → Calm t ws s
      → (u : e.Session) × (e.commit s ≡ (ok tt, u))
