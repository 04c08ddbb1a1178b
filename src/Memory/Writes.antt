-- ===== src/Memory/Writes.antt =====
-- The writes of the engine in memory, and the end of its transactions, keep the laws of `Engine`.
use chekin_interview.Base.{
  ◌≡◌, refl, sym, ◌∙◌, ap, ◌⊎◌, inl, inr, Bool, true, false, Option, none, some, List, [], ◌∷◌,
  ◌++◌, arith, Option-cases,
}
use chekin_interview.Errors.{Exn}
use chekin_interview.Models.{
  Tables, Write, add_key, add_account, add_entry, set_balance, set_response,
}
use chekin_interview.Models.Constraints.{admits, trigger_passes}
use chekin_interview.Database.{Within, Ends, Claims, All, IsLost, Committed}
use chekin_interview.Database.Rules.{SameRow-refl}
use chekin_interview.Memory.{
  Event, calm, fail, other, lose, Memory, ghost, head_event, tick, refusal, first_refusal,
  write_rows, flush, rollback, view, landed, settle, commit,
}
use chekin_interview.Memory.Reads.{statement-Ends}

-- A row change that is not refused is admitted.
refusal-admits : (t : Tables) (w : Write) → refusal t w ≡ none → admits w ≡ true
unfolding refusal
refusal-admits t (add_key r) h = ground arith
refusal-admits t (add_account a) h = ground arith
refusal-admits t (add_entry l) h = ground arith
refusal-admits t (set_balance i v) h = ground arith
refusal-admits t (set_response k resource status body) h = unfold admits in refl

-- A new row that is not refused has a free key.
refusal-Claims :
    (m : Memory) (w : Write) → refusal m.stored w ≡ none → m.active ≡ true → Claims ghost m w
unfolding refusal
refusal-Claims m (add_key r) h active = (active, ground arith)
refusal-Claims m (add_account a) h active = (active, ground arith)
refusal-Claims m (add_entry l) h active = tt
refusal-Claims m (set_balance i v) h active = tt
refusal-Claims m (set_response k resource status body) h active = tt

first_refusal-All :
    (t : Tables) (ws : List Write) → first_refusal t ws ≡ none → All (λ w. refusal t w ≡ none) ws
unfolding first_refusal
first_refusal-All t [] h = tt
first_refusal-All t (w ∷ ws) h = elim (Option-cases (refusal t w)) [
  | inl p ↦ (p, first_refusal-All t ws (rw (p, first_refusal) at h))
  | inr (x, p) ↦ cc (rw (p, first_refusal) at h)
]

All-imp {ℓ κ μ} :
    {A : Type ℓ} (P : A → Type κ) (R : A → Type μ) (l : List A)
    → ((a : A) → P a → R a)
    → All P l
    → All R l
All-imp P R [] f h = tt
All-imp P R (x ∷ l) f h = (f x h.0, All-imp P R l f h.1)

append_empty {ℓ} : {A : Type ℓ} (l r : List A) → l ++ r ≡ [] → l ≡ []
append_empty [] r h = refl
append_empty (x ∷ l) r h = cc

write_rows-Ends :
    (ws : List Write) (m n : Memory)
    → Within ghost m n
    → n.changes ≡ m.changes
    → (o : Option Exn) → first_refusal n.stored ws ≡ o
    → Ends
        (λ u p.
          Within ghost m p
          × (p.changes ≡ m.changes ++ ws)
          × All (λ w. admits w ≡ true) ws
          × All (Claims ghost p) ws)
        (λ x p. p.commits ≡ m.commits)
        (write_rows ws o n)
write_rows-Ends ws m n w same (some x) h = w.own_kept
write_rows-Ends ws m n w same none h =
    let p : Memory = record n { changes = n.changes ++ ws; active = true } in
    let allowed = first_refusal-All n.stored ws h in
    (
      record {
        own_kept = w.own_kept;
        held_kept = λ r held. refl;
        rows_kept = w.rows_kept;
        begun_kept =
            λ b empty. b (append_empty m.changes ws (ap (λ l. l ++ ws) (sym same) ∙ empty));
        time_kept = w.time_kept;
      },
      ap (λ l. l ++ ws) same,
      All-imp _ _ ws (refusal-admits n.stored) allowed,
      All-imp _ _ ws (λ x q. refusal-Claims p x q refl) allowed,
    )

pub flush_writes :
    (ws : List Write) (m : Memory)
    → Ends
        (λ u p.
          Within ghost m p
          × (p.changes ≡ m.changes ++ ws)
          × All (λ w. admits w ≡ true) ws
          × All (Claims ghost p) ws)
        (λ x p. p.commits ≡ m.commits)
        (flush ws m)
unfolding flush
flush_writes ws m =
    statement-Ends (λ n. write_rows ws (first_refusal n.stored ws) n) _ m
      (λ n w same. write_rows-Ends ws m n w same (first_refusal n.stored ws) refl)

landed-Committed :
    (m : Memory)
    → trigger_passes m.changes (view m).ledger_entries ≡ true
    → Committed ghost m (landed (tick m))
landed-Committed m h = record {
  onto = m.stored;
  rows_kept = λ r held. SameRow-refl r m.stored;
  written = refl;
  own_added = refl;
  triggered = h;
}

settle-Ends :
    (m : Memory) (e : Event) (b : Bool)
    → trigger_passes m.changes (view m).ledger_entries ≡ b
    → Ends
        (λ u n. Committed ghost m n)
        (λ x n. (n.commits ≡ m.commits) ⊎ (IsLost x × Committed ghost m n))
        (settle e b (tick m))
settle-Ends m e false h = inl refl
settle-Ends m calm true h = landed-Committed m h
settle-Ends m (fail x) true h = inl refl
settle-Ends m (other ws) true h = landed-Committed m h
settle-Ends m lose true h = inr (tt, landed-Committed m h)

pub commit_lands :
    (m : Memory)
    → Ends
        (λ u n. Committed ghost m n)
        (λ x n. (n.commits ≡ m.commits) ⊎ (IsLost x × Committed ghost m n))
        (commit m)
unfolding commit
commit_lands m =
    settle-Ends m (head_event m.events) (trigger_passes m.changes (view m).ledger_entries) refl

pub rollback_ends : (m : Memory) → ((rollback m).changes ≡ []) × ((rollback m).commits ≡ m.commits)
unfolding rollback
rollback_ends m = (refl, refl)
