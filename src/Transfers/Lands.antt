-- ===== src/Transfers/Lands.antt =====
-- The commit of a complete transfer, as a step of the abstract ledger.
use chekin_interview.Base.{
  ℕ, String, ◌≡◌, ◌≢◌, refl, sym, ◌∙◌, ap, true, some, List, ◌∷◌, arith, ◌&&◌, eq_iff,
}
use chekin_interview.Base.Int.{ℤ, pos, ◌+ℤ◌, ◌-ℤ◌}
use chekin_interview.Json.{Json}
use chekin_interview.Models.{
  IdempotencyKey, Tables, add_key, update_balance, update_response, apply, answered,
}
use chekin_interview.Models.Constraints.{admits, fits_money, is_non_negative}
use chekin_interview.Models.Lookup.{find_account-id}
use chekin_interview.Schemas.{Codec, TransferRequest, dump_transfer_request}
use chekin_interview.Database.{Engine, account_row, key_row}
use chekin_interview.Idempotency.{Outcome, new_claim, fingerprint}
use chekin_interview.Idempotency.Contract.{Fresh}
use chekin_interview.Transfers.{operation, legs}
use chekin_interview.Transfers.Moves.{Moved, changes, response}
use chekin_interview.Ledger.{TransferStep}

-- A response's update finds the row that was inserted just now.
pub update_response-new :
    (k : String) (resource status : ℕ) (body : Json) (r : IdempotencyKey)
    (rest : List IdempotencyKey)
    → r.key ≡ k
    → update_response k resource status body (r ∷ rest) ≡ answered r resource status body ∷ rest
unfolding update_response
update_response-new k resource status body r rest h = rw ((eq_iff r.key k).1 h)

-- The columns' types bound the credited balance.
fits_of_admits : (v : ℤ) → fits_money v && is_non_negative v ≡ true → fits_money v ≡ true
fits_of_admits v h = ground arith

module _ (e : Engine) (c : Codec) (key : String) (req : TransferRequest) where
  open e use {Session, ghost}

  abbrev hash : String
  hash = fingerprint c (dump_transfer_request c req)

  module _ (distinct : req.from_account_id ≢ req.to_account_id) where
    module _ (s : Session) (o : Outcome) (s' : Session)
        (f : Fresh e (Moved e c req) (new_claim key operation hash) s o s') where
      open f use {before, worked, landed}
      open worked use {source, destination, transfer_id, debit_id, credit_id, created_at}

      abbrev pub source_id : source.id ≡ req.from_account_id
      source_id =
          find_account-id req.from_account_id source (ghost.committed before).accounts
            worked.holds_source.1

      abbrev pub destination_id : destination.id ≡ req.to_account_id
      destination_id =
          find_account-id req.to_account_id destination (ghost.committed before).accounts
            worked.holds_destination.1

      -- The committed tables, as the row changes make them.
      pub after :
          ghost.committed s'
          ≡ apply
              (ghost.time before)
              (add_key (new_claim key operation hash)
                ∷ changes e c req
                    (new_claim key operation hash)
                    source
                    destination
                    transfer_id
                    debit_id
                    credit_id
                    created_at)
              landed.onto
      after = landed.written ∙ ap (λ ws. apply (ghost.time before) ws landed.onto) worked.writes

      abbrev claim_after : IdempotencyKey
      claim_after =
          answered (record (new_claim key operation hash) { created_at = ghost.time before })
            transfer_id 201 (c.jsonb (response e c req source destination transfer_id created_at))

      pub accounts_after :
          (ghost.committed s').accounts
          ≡ update_balance req.to_account_id (destination.balance +ℤ req.amount) (
              update_balance req.from_account_id
                (source.balance -ℤ req.amount)
                landed.onto.accounts)
      unfolding legs
      accounts_after =
          ap (λ (t : Tables). t.accounts) after
          ∙ ap
              (λ i.
                update_balance i (destination.balance +ℤ req.amount)
                  (update_balance source.id (source.balance -ℤ req.amount) landed.onto.accounts))
              destination_id
          ∙ ap
              (λ i.
                update_balance req.to_account_id (destination.balance +ℤ req.amount)
                  (update_balance i (source.balance -ℤ req.amount) landed.onto.accounts))
              source_id

      pub keys_after :
          (ghost.committed s').idempotency_keys ≡ claim_after ∷ landed.onto.idempotency_keys
      unfolding legs
      keys_after =
          ap (λ (t : Tables). t.idempotency_keys) after
          ∙ update_response-new key transfer_id 201
              (c.jsonb (response e c req source destination transfer_id created_at))
              (record (new_claim key operation hash) { created_at = ghost.time before })
              landed.onto.idempotency_keys refl

      pub in_range_after : fits_money (destination.balance +ℤ req.amount) ≡ true
      unfolding legs admits
      in_range_after = fits_of_admits (destination.balance +ℤ req.amount) worked.admitted.1.0

      -- The commit of a complete transfer is a step of the abstract ledger.
      unfoldable pub Fresh-TransferStep :
          TransferStep key hash req (c.jsonb o.body) landed.onto (ghost.committed s')
      unfolding legs
      Fresh-TransferStep = record {
        now = ghost.time before;
        transfer_id = transfer_id;
        source = source;
        destination = destination;
        claim = claim_after;
        debit = record {
          id = debit_id;
          transfer_id = transfer_id;
          account_id = source.id;
          amount = pos 0 -ℤ req.amount;
          created_at = ghost.time before;
        };
        credit = record {
          id = credit_id;
          transfer_id = transfer_id;
          account_id = destination.id;
          amount = req.amount;
          created_at = ghost.time before;
        };
        unused = sym (landed.rows_kept (key_row key) f.claimed) ∙ f.unused;
        source_row =
            sym (landed.rows_kept (account_row req.from_account_id) worked.holds_source.0)
            ∙ worked.holds_source.1;
        destination_row =
            sym (landed.rows_kept (account_row req.to_account_id) worked.holds_destination.0)
            ∙ worked.holds_destination.1;
        distinct = distinct;
        covered = worked.covered;
        in_range = in_range_after;
        answered = record {
          same_key = refl;
          same_operation = refl;
          same_hash = refl;
          status = refl;
          response = ap (λ (x : Outcome). some (c.jsonb x.body)) (sym worked.answer);
          stamped = refl;
        };
        resource = refl;
        debited = record {
          on_account = source_id;
          of_transfer = refl;
          signed = refl;
          stamped = refl;
        };
        credited = record {
          on_account = destination_id;
          of_transfer = refl;
          signed = refl;
          stamped = refl;
        };
        accounts_after = accounts_after;
        entries_after = ap (λ (t : Tables). t.ledger_entries) after;
        keys_after = keys_after;
      }
