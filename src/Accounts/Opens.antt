-- ===== src/Accounts/Opens.antt =====
-- `_open_account` in the transaction that `execute_once` has opened: it keeps the contract of
-- `execute_once`, with the row of one new account.
use chekin_interview.Base.{
  ℕ, ◌≡◌, ◌≢◌, refl, sym, ◌∙◌, ap, true, false, none, some, [], ◌∷◌, ◌++◌, ==_refl,
}
use chekin_interview.Errors.{Exn}
use chekin_interview.Models.{
  Account, IdempotencyKey, add_key, add_account, set_response, find_account, apply,
}
use chekin_interview.Models.Lookup.{some_inj}
use chekin_interview.Models.Constraints.{admits}
use chekin_interview.Schemas.{Codec, CreateAccountRequest, dump_account_response}
use chekin_interview.Database.{Engine, account_row, Within, Ends, All, Claims}
use chekin_interview.Database.Exec.{pure, ◌>>=◌, ◌>>◌}
use chekin_interview.Database.Rules.{Ends-bind, Ends-imp, Within-trans}
use chekin_interview.Idempotency.{Outcome}
use chekin_interview.Idempotency.Contract.{Performs}
use chekin_interview.Accounts.{new_account, open_account}

module _ (e : Engine) (c : Codec) where
  open e use {Session, ghost}

  -- The new row as the server stores it at a time.
  abbrev pub opened_account : CreateAccountRequest → ℕ → ℕ → Account
  opened_account req i at = record (new_account i req) { created_at = at }

  abbrev pub created : CreateAccountRequest → ℕ → ℕ → Outcome
  created req i at = record {
    status_code = 201;
    body = dump_account_response c (opened_account req i at);
    replayed = false;
  }

  -- The transaction of one opening, complete but for its commit.
  pub record Opened (req : CreateAccountRequest) (claim : IdempotencyKey) (o : Outcome)
      (s : Session) : Type 0 where
    pub account_id : ℕ
    pub held : ghost.Held s (account_row account_id)
    pub new_id : find_account account_id (ghost.committed s).accounts ≡ none
    pub answer : o ≡ created req account_id (ghost.time s)
    pub writes :
        ghost.pending s
        ≡ add_key claim
          ∷ add_account (new_account account_id req)
          ∷ set_response claim.key account_id 201
              (c.jsonb (dump_account_response c (opened_account req account_id (ghost.time s))))
          ∷ []
    pub admitted : admits (add_account (new_account account_id req)) ≡ true

  module _ (req : CreateAccountRequest) (claim : IdempotencyKey) (start : Session) where
    abbrev Worked : Outcome → Session → Type 0
    Worked o s = Within ghost start s × Opened req claim o s

    abbrev Stopped : Exn → Session → Type 0
    Stopped x s = ghost.own s ≡ ghost.own start

    -- The state after the account's INSERT.
    record IsInserted (i : ℕ) (s : Session) : Type 0 where
      within : Within ghost start s
      held : ghost.Held s (account_row i)
      new_id : find_account i (ghost.committed s).accounts ≡ none
      pending : ghost.pending s ≡ add_key claim ∷ add_account (new_account i req) ∷ []
      admitted : admits (add_account (new_account i req)) ≡ true

    IsInserted-begun : (i : ℕ) (s : Session) → IsInserted i s → ghost.pending s ≢ []
    IsInserted-begun i s h empty = cc (h.pending, empty)

    Within-IsInserted :
        (i : ℕ) (s t : Session)
        → IsInserted i s
        → Within ghost s t
        → ghost.pending t ≡ ghost.pending s
        → IsInserted i t
    Within-IsInserted i s t h w same = record {
      within = Within-trans ghost start s t h.within w;
      held = w.held_kept (account_row i) h.held;
      new_id = sym (w.rows_kept (account_row i) h.held) ∙ h.new_id;
      pending = same ∙ h.pending;
      admitted = h.admitted;
    }

    respond-Worked :
        (i : ℕ) (account : Account) (s : Session)
        → IsInserted i s
        → account ≡ opened_account req i (ghost.time s)
        → Ends Worked Stopped (
            (do
              e.flush (
                  set_response claim.key account.id 201 (c.jsonb (dump_account_response c account))
                  ∷ [])
              pure (record {
                status_code = 201;
                body = dump_account_response c account;
                replayed = false;
              }))
              s)
    respond-Worked i account s h same = rw same (
        let ws =
          set_response claim.key i 201
            (c.jsonb (dump_account_response c (opened_account req i (ghost.time s))))
          ∷ [] in
        Ends-bind (λ u t. Within ghost s t × (ghost.pending t ≡ ghost.pending s ++ ws)) Worked
          Stopped (λ u. pure (created req i (ghost.time s))) (e.flush ws s)
          (Ends-imp _ _ _ Stopped (e.flush ws s) (e.flush_writes ws s) (λ u t k. (k.0, k.1))
            (λ x t k. k ∙ h.within.own_kept))
          (λ u t (w, pending).
            let at : ghost.time t ≡ ghost.time s = w.time_kept (IsInserted-begun i s h) in
            (
              Within-trans ghost start s t h.within w,
              record {
                account_id = i;
                held = w.held_kept (account_row i) h.held;
                new_id = sym (w.rows_kept (account_row i) h.held) ∙ h.new_id;
                answer = ap (created req i) (sym at);
                writes =
                    pending
                    ∙ ap (λ l. l ++ ws) h.pending
                    ∙ ap
                        (λ now.
                          add_key claim
                          ∷ add_account (new_account i req)
                          ∷ set_response claim.key i 201
                              (c.jsonb (dump_account_response c (opened_account req i now)))
                          ∷ [])
                        (sym at);
                admitted = h.admitted;
              },
            )))

    -- What `db.refresh` reads is the new row with the time of the transaction.
    refreshed :
        (i : ℕ) (account : Account) (s : Session)
        → IsInserted i s
        → find_account i (apply (ghost.time s) (ghost.pending s) (ghost.committed s)).accounts
          ≡ some account
        → account ≡ opened_account req i (ghost.time s)
    unfolding find_account
    refreshed i account s h found = some_inj (
        sym found
        ∙ ap (λ ws. find_account i (apply (ghost.time s) ws (ghost.committed s)).accounts) h.pending
        ∙ rw ==_refl refl)

    inserted-Worked :
        (i : ℕ) (s : Session)
        → IsInserted i s
        → Ends Worked Stopped (
            (do
              account ← e.refresh (new_account i req)
              let body = dump_account_response c account
              e.flush (set_response claim.key account.id 201 (c.jsonb body) ∷ [])
              pure (record { status_code = 201; body = body; replayed = false }))
              s)
    inserted-Worked i s h =
        Ends-bind
          (λ r t.
            Within ghost s t
            × (ghost.pending t ≡ ghost.pending s)
            × (find_account i (apply (ghost.time t) (ghost.pending t) (ghost.committed t)).accounts
                ≡ some r))
          Worked Stopped _ (e.refresh (new_account i req) s)
          (Ends-imp _ _ _ Stopped (e.refresh (new_account i req) s)
            (e.refresh_reads (new_account i req) s) (λ r t k. k) (λ x t k. k ∙ h.within.own_kept))
          (λ account t (w, same, found).
            let h' = Within-IsInserted i s t h w same in
            respond-Worked i account t h' (refreshed i account t h' found))

    insert-Worked :
        (i : ℕ) (s : Session)
        → Within ghost start s
        → ghost.pending s ≡ add_key claim ∷ []
        → Ends Worked Stopped (
            (do
              e.flush (add_account (new_account i req) ∷ [])
              account ← e.refresh (new_account i req)
              let body = dump_account_response c account
              e.flush (set_response claim.key account.id 201 (c.jsonb body) ∷ [])
              pure (record { status_code = 201; body = body; replayed = false }))
              s)
    insert-Worked i s w claimed =
        let ws = add_account (new_account i req) ∷ [] in
        Ends-bind
          (λ u t.
            Within ghost s t
            × (ghost.pending t ≡ ghost.pending s ++ ws)
            × All (λ x. admits x ≡ true) ws
            × All (Claims ghost t) ws)
          Worked Stopped _ (e.flush ws s)
          (Ends-imp _ _ _ Stopped (e.flush ws s) (e.flush_writes ws s) (λ u t k. k)
            (λ x t k. k ∙ w.own_kept))
          (λ u t (w', pending, admitted, claims). inserted-Worked i t (record {
            within = Within-trans ghost start s t w w';
            held = claims.0.0;
            new_id = claims.0.1;
            pending = pending ∙ ap (λ l. l ++ ws) claimed;
            admitted = admitted.0;
          }))

  -- The work of an opening keeps the contract of `execute_once`.
  pub open_account-Performs :
      (req : CreateAccountRequest) → Performs e (Opened req) (λ claim. open_account e c claim req)
  unfolding open_account
  open_account-Performs req claim s pending =
      insert-Worked req claim s (e.uuid4 s).0 (e.uuid4 s).1 (e.uuid4_local s).0
        ((e.uuid4_local s).1 ∙ pending)
