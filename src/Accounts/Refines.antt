-- ===== src/Accounts/Refines.antt =====
-- `create_account` refines the abstract ledger: it commits one opened account, or nothing.
use chekin_interview.Base.{
  String, ◌≡◌, refl, sym, ◌∙◌, ap, ◌⊎◌, inl, inr, ◌&&◌, true, false, some, List, [], ◌∷◌, ◌++◌,
  arith,
}
use chekin_interview.Base.Int.{ℤ}
use chekin_interview.Models.{
  IdempotencyKey, Tables, Write, add_key, add_account, set_response, apply, answered,
}
use chekin_interview.Models.Constraints.{admits, fits_money, is_non_negative}
use chekin_interview.Schemas.{
  Codec, CreateAccountRequest, dump_create_request, dump_account_response,
}
use chekin_interview.Database.{Engine, Ends, account_row, key_row}
use chekin_interview.Database.Rules.{Ends-imp}
use chekin_interview.Database.Exec.{Exec}
use chekin_interview.Idempotency.{Outcome, new_claim, fingerprint, execute_once}
use chekin_interview.Idempotency.Contract.{Fresh, Done, Failed}
use chekin_interview.Idempotency.Once.{execute_once-Ends}
use chekin_interview.Idempotency.Stored.{Stored, Replayed-Stored, Raised, Failed-Raised}
use chekin_interview.Accounts.{operation, new_account, open_account, create_account}
use chekin_interview.Accounts.Opens.{Opened, opened_account, open_account-Performs}
use chekin_interview.Transfers.Lands.{update_response-new}
use chekin_interview.Ledger.{OpenStep}

-- The columns' types bound the opening balance, and its CHECK forbids a negative one.
opening_admitted :
    (v : ℤ)
    → fits_money v && (fits_money v && (is_non_negative v && is_non_negative v)) ≡ true
    → fits_money v ≡ true
opening_admitted v h = ground arith

module _ (e : Engine) (c : Codec) (key : String) (req : CreateAccountRequest) where
  open e use {Session, ghost}

  abbrev pub work : IdempotencyKey → Exec Session Outcome
  work claim = open_account e c claim req

  abbrev pub hash : String
  hash = fingerprint c (dump_create_request req)

  module _ (s : Session) (o : Outcome) (s' : Session)
      (f : Fresh e (Opened e c req) (new_claim key operation hash) s o s') where
    open f use {before, worked, landed}
    open worked use {account_id}

    abbrev claim_after : IdempotencyKey
    claim_after =
        answered (record (new_claim key operation hash) { created_at = ghost.time before })
          account_id 201
          (c.jsonb
            (dump_account_response c (opened_account e c req account_id (ghost.time before))))

    after :
        ghost.committed s'
        ≡ apply
            (ghost.time before)
            (add_key (new_claim key operation hash)
              ∷ add_account (new_account account_id req)
              ∷ set_response key account_id 201 (
                  c.jsonb (
                    dump_account_response c
                      (opened_account e c req account_id (ghost.time before))))
              ∷ [])
            landed.onto
    after = landed.written ∙ ap (λ ws. apply (ghost.time before) ws landed.onto) worked.writes

    in_range_after : fits_money req.initial_balance ≡ true
    unfolding admits
    in_range_after = opening_admitted req.initial_balance worked.admitted

    Fresh-OpenStep : OpenStep key hash req (c.jsonb o.body) landed.onto (ghost.committed s')
    Fresh-OpenStep = record {
      now = ghost.time before;
      account = opened_account e c req account_id (ghost.time before);
      claim = claim_after;
      unused = sym (landed.rows_kept (key_row key) f.claimed) ∙ f.unused;
      new_id = sym (landed.rows_kept (account_row account_id) worked.held) ∙ worked.new_id;
      funded = refl;
      opened = refl;
      stamped = refl;
      in_range = in_range_after;
      answered = record {
        same_key = refl;
        same_operation = refl;
        same_hash = refl;
        status = refl;
        response = ap (λ (x : Outcome). some (c.jsonb x.body)) (sym worked.answer);
        stamped = refl;
      };
      resource = refl;
      accounts_after = ap (λ (t : Tables). t.accounts) after;
      entries_after = ap (λ (t : Tables). t.ledger_entries) after;
      keys_after =
          ap (λ (t : Tables). t.idempotency_keys) after
          ∙ update_response-new key account_id 201
              (c.jsonb
                (dump_account_response c (opened_account e c req account_id (ghost.time before))))
              (record (new_claim key operation hash) { created_at = ghost.time before })
              landed.onto.idempotency_keys refl;
    }

  -- The account was opened now: one step of the abstract ledger is committed, and the response
  -- tells its account.
  pub record Executed (s : Session) (o : Outcome) (s' : Session) : Type 0 where
    pub onto : Tables
    pub step : OpenStep key hash req (c.jsonb o.body) onto (ghost.committed s')
    pub status : o.status_code ≡ 201
    pub not_replayed : o.replayed ≡ false
    pub tells : o.body ≡ dump_account_response c step.account
    pub writes : List Write
    pub one_commit : ghost.own s' ≡ ghost.own s ++ writes ∷ []

  Fresh-Executed :
      (s : Session) (o : Outcome) (s' : Session)
      → Fresh e (Opened e c req) (new_claim key operation hash) s o s'
      → Executed s o s'
  unfolding Fresh-OpenStep
  Fresh-Executed s o s' f = record {
    onto = f.landed.onto;
    step = Fresh-OpenStep s o s' f;
    status = ap (λ (x : Outcome). x.status_code) f.worked.answer;
    not_replayed = ap (λ (x : Outcome). x.replayed) f.worked.answer;
    tells = ap (λ (x : Outcome). x.body) f.worked.answer;
    writes = ghost.pending f.before;
    one_commit = f.landed.own_added ∙ ap (λ w. w ++ ghost.pending f.before ∷ []) f.own_before;
  }

  pub create_account-refines :
      (s : Session)
      → ghost.pending s ≡ []
      → Ends
          (λ o s'. Executed s o s' ⊎ Stored e key operation hash work s o s')
          (Raised e Executed s)
          (create_account e c key req s)
  unfolding create_account
  create_account-refines s idle =
      Ends-imp (Done e (Opened e c req) key operation hash work s)
        (λ o s'. Executed s o s' ⊎ Stored e key operation hash work s o s')
        (Failed e (Opened e c req) key operation hash work s) (Raised e Executed s)
        (execute_once e c key operation (dump_create_request req) work s)
        (execute_once-Ends e (Opened e c req) c key operation (dump_create_request req) work s
          (open_account-Performs e c req) idle)
        (λ o s'. elim [
          | inl r ↦ inr (Replayed-Stored e key operation hash work s o s' r)
          | inr f ↦ inl (Fresh-Executed s o s' f)
        ])
        (Failed-Raised e Executed (Opened e c req) key operation hash work s
          (λ o t. Fresh-Executed s o t))
