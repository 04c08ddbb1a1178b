-- ===== src/Api/Succeeds.antt =====
-- Progress at the HTTP side: when POST /transfers makes its transfer.
use chekin_interview.Base.{
  String, if◌then◌else◌, ◌≡◌, ◌≢◌, refl, ap, true, false, none, some, List, [], ◌∷◌, ◌≤◌,
}
use chekin_interview.Base.Int.{pos, ◌+ℤ◌, ◌<ℤ◌, ltb_ℤ}
use chekin_interview.Base.Text.{text_length}
use chekin_interview.Models.{Account, Tables, set_balance, find_account, find_key}
use chekin_interview.Models.Constraints.{admits, numeric_limit}
use chekin_interview.Schemas.{Codec, TransferRequest, dump_transfer_request, is_positive_money}
use chekin_interview.Schemas.Limits.{require_key-admits}
use chekin_interview.Database.{Engine}
use chekin_interview.Database.Exec.{ok}
use chekin_interview.Database.Quiet.{Quiet}
use chekin_interview.Idempotency.{fingerprint}
use chekin_interview.Idempotency.Key.{require_key}
use chekin_interview.Ledger.Invariant.{IsConsistent}
use chekin_interview.Transfers.Succeeds.{execute_transfer-succeeds}
use chekin_interview.Api.{Response, FieldError, answer, create_transfer, post_transfers}

module _ (e : Engine) (quiet : Quiet e) (c : Codec) (t : Tables) where
  open e use {Session}
  open quiet use {Calm}

  -- On a database that nothing disturbs, with a consistent ledger and a session with nothing open:
  -- POST /transfers of a valid amount between two distinct accounts, whose rows the constraints
  -- admit, with a valid and unused key and a hash of at most 64 characters, where the source covers
  -- the amount and the credited balance stays below 10 ^ 20 ten-thousandths, answers with a 201 that
  -- says that it is no replay.
  pub post_transfers-succeeds :
      (errors : List FieldError) (raw key : String) (req : TransferRequest) (a b : Account)
      (s : Session)
      → Calm t [] s
      → IsConsistent t
      → require_key (some raw) ≡ ok key
      → find_key key t.idempotency_keys ≡ none
      → text_length (fingerprint c (dump_transfer_request c req)) ≤ 64
      → req.from_account_id ≢ req.to_account_id
      → is_positive_money req.amount ≡ true
      → find_account req.from_account_id t.accounts ≡ some a
      → find_account req.to_account_id t.accounts ≡ some b
      → admits (set_balance a.id a.balance) ≡ true
      → admits (set_balance b.id b.balance) ≡ true
      → ltb_ℤ a.balance req.amount ≡ false
      → b.balance +ℤ req.amount <ℤ pos numeric_limit
      → (r : Response) × (u : Session) × (post_transfers e c errors req (some raw) s ≡ (ok r, u))
        × (r.status ≡ 201)
        × (r.headers ≡ ("Idempotent-Replay", "false") ∷ [])
  unfolding post_transfers create_transfer answer
  post_transfers-succeeds errors raw key req a b s q consistent checked unused short distinct valid
        from to fits_a fits_b covered in_range =
      let (o, u, ran, status, fresh) =
        execute_transfer-succeeds e quiet c t key req a b s q consistent distinct valid from to
          fits_a fits_b covered in_range unused (require_key-admits raw key _ checked short) in
      (
        answer o,
        u,
        rw (valid, checked, ran) refl,
        status,
        ap (λ x. ("Idempotent-Replay", if x then "true" else "false") ∷ []) fresh,
      )
