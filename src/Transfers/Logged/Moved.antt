-- ===== src/Transfers/Logged/Moved.antt =====
-- What every outcome of `_move_money` has: it is no replay, and its body names the transfer.
use chekin_interview.Base.{ℕ, ◌≡◌, refl, inl, inr, false, some, [], ◌∷◌, Bool-cases}
use chekin_interview.Base.Int.{ltb_ℤ}
use chekin_interview.Json.{Json, str, member}
use chekin_interview.Models.{Account, IdempotencyKey}
use chekin_interview.Schemas.{Codec, TransferRequest, dump_transfer_response}
use chekin_interview.Database.{Engine}
use chekin_interview.Database.Exec.{pure, always, ◌>>=◌, ◌>>◌}
use chekin_interview.Idempotency.{Outcome}
use chekin_interview.Idempotency.Logged.Gives.{Gives, follow-Gives, >>=-Gives}
use chekin_interview.Transfers.{get_item, lock_accounts, or_key_error, move_between, move_money}
use chekin_interview.Transfers.Moves.{changes, created}

-- An outcome of `_move_money`: no replay, and with the id of its transfer in the body.
abbrev pub IsMoved : Outcome → Type 0
IsMoved o = (o.replayed ≡ false) × (id : Json) × (member "transfer_id" o.body ≡ some id)

module _ (e : Engine) (c : Codec) (req : TransferRequest) where
  open e use {Session, now, flush, uuid4}

  -- The outcome of a transfer has its id in the body.
  created-IsMoved :
      (source destination : Account) (transfer_id at : ℕ)
      → IsMoved (created e c req source destination transfer_id at)
  unfolding dump_transfer_response
  created-IsMoved source destination transfer_id at = (refl, str (c.uuid_text transfer_id), refl)

  module _ (claim : IdempotencyKey) where
    move_between-IsMoved :
        (source destination : Account)
        → Gives IsMoved (move_between e c claim req source destination)
    unfolding move_between
    move_between-IsMoved source destination s =
        let i = (uuid4 s).0 in
        elim (Bool-cases (ltb_ℤ source.balance req.amount)) [
          | inl short ↦ rw short tt
          | inr enough ↦ rw enough (
              follow-Gives IsMoved
                (λ at. do
                  debit_id ← always uuid4
                  credit_id ← always uuid4
                  flush (changes e c req claim source destination i debit_id credit_id at)
                  pure (created e c req source destination i at))
                (now (uuid4 s).1)
                (λ at t.
                  follow-Gives IsMoved (λ u. pure (created e c req source destination i at))
                    (flush
                      (changes e c req claim source destination i (uuid4 t).0 (uuid4 (uuid4 t).1).0
                        at)
                      (uuid4 (uuid4 t).1).1)
                    (λ u v. created-IsMoved source destination i at)))
        ]

    pub move_money-IsMoved : Gives IsMoved (move_money e c claim req)
    unfolding move_money
    move_money-IsMoved =
        >>=-Gives IsMoved (lock_accounts e c (req.from_account_id ∷ req.to_account_id ∷ []))
          (λ l. do
            source ← or_key_error e c (get_item req.from_account_id l)
            destination ← or_key_error e c (get_item req.to_account_id l)
            move_between e c claim req source destination)
          (λ l.
            >>=-Gives IsMoved (or_key_error e c (get_item req.from_account_id l))
              (λ source. do
                destination ← or_key_error e c (get_item req.to_account_id l)
                move_between e c claim req source destination)
              (λ source.
                >>=-Gives IsMoved (or_key_error e c (get_item req.to_account_id l))
                  (λ destination. move_between e c claim req source destination)
                  (λ destination. move_between-IsMoved source destination)))
