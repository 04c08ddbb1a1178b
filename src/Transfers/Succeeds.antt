-- ===== src/Transfers/Succeeds.antt =====
-- Progress: on a database that nothing disturbs, a possible transfer is made.
use chekin_interview.Base.{String, ◌≡◌, ◌≢◌, ◌∙◌, ap, true, false, none, some, [], ◌∷◌, ==_ne}
use chekin_interview.Base.Int.{pos, ◌+ℤ◌, ◌<ℤ◌, ltb_ℤ}
use chekin_interview.Models.{Account, Tables, add_key, set_balance, find_account, find_key}
use chekin_interview.Models.Constraints.{admits, numeric_limit}
use chekin_interview.Schemas.{Codec, TransferRequest, dump_transfer_request, is_positive_money}
use chekin_interview.Database.{Engine}
use chekin_interview.Database.Exec.{ok}
use chekin_interview.Database.Quiet.{Quiet}
use chekin_interview.Idempotency.{Outcome, new_claim, fingerprint}
use chekin_interview.Idempotency.Runs.{execute_once-performed}
use chekin_interview.Transfers.{operation, move_money, execute_transfer}
use chekin_interview.Ledger.Invariant.{IsConsistent}
use chekin_interview.Transfers.Calm.{move_money-calm, changes-pass}

module _ (e : Engine) (quiet : Quiet e) (c : Codec) (t : Tables) where
  open e use {Session, ghost}
  open quiet use {Calm}

  abbrev hash : TransferRequest → String
  hash req = fingerprint c (dump_transfer_request c req)

  -- On a database that nothing disturbs, with a consistent ledger and a session with nothing open: a
  -- transfer of a validated amount between two distinct accounts, whose rows the constraints admit,
  -- under a key that is not used and fits its column with the request's hash, where the source covers
  -- the amount and the credited balance stays below 10 ^ 20 ten-thousandths, returns a 201 that is no
  -- replay.
  pub execute_transfer-succeeds :
      (key : String) (req : TransferRequest) (a b : Account) (s : Session)
      → Calm t [] s
      → IsConsistent t
      → req.from_account_id ≢ req.to_account_id
      → is_positive_money req.amount ≡ true
      → find_account req.from_account_id t.accounts ≡ some a
      → find_account req.to_account_id t.accounts ≡ some b
      → admits (set_balance a.id a.balance) ≡ true
      → admits (set_balance b.id b.balance) ≡ true
      → ltb_ℤ a.balance req.amount ≡ false
      → b.balance +ℤ req.amount <ℤ pos numeric_limit
      → find_key key t.idempotency_keys ≡ none
      → admits (add_key (new_claim key operation (hash req))) ≡ true
      → (o : Outcome) × (u : Session) × (execute_transfer e c key req s ≡ (ok o, u))
        × (o.status_code ≡ 201)
        × (o.replayed ≡ false)
  unfolding execute_transfer
  execute_transfer-succeeds key req a b s q consistent distinct valid from to fits_a fits_b covered
        in_range unused fits_key =
      let claim = new_claim key operation (hash req) in
      let (s1, read, q1) = quiet.get_key_calm t key s q in
      let q2 = quiet.rollback_calm t [] s1 q1 in
      let (s2, claimed, q3) =
        quiet.flush_calm t [] (add_key claim ∷ []) (e.rollback s1) (fits_key, tt) (unused, tt)
          (tt, tt) q2 in
      let (o, s3, moved, going) =
        move_money-calm e quiet c t req a b claim valid covered fits_a fits_b in_range from to s2
          q3 in
      let (s4, landed) =
        quiet.commit_calm t _ s3
          (changes-pass e quiet c t req a b claim valid covered fits_a fits_b in_range consistent
            (ghost.time s3) going.transfer_id going.debit_id going.credit_id going.created_at)
          going.calm in
      (
        o,
        s4,
        rw (==_ne distinct) (
            execute_once-performed e c key operation (dump_transfer_request c req)
              (λ k. move_money e c k req) s s1 s2 s3 s4 o (read ∙ ap (λ r. (ok r, s1)) unused)
              claimed moved landed),
        ap (λ (x : Outcome). x.status_code) going.outcome,
        ap (λ (x : Outcome). x.replayed) going.outcome,
      )
