-- ===== src/Api/Logged/Endpoint.antt =====
-- What POST /transfers logs, as far as its endpoint: the lines of its service, and none where the key or
-- the payload is refused.
use chekin_interview.Base.{
  String, ◌≡◌, ◌≢◌, refl, ap, ◌⊎◌, inl, inr, true, false, Option, some, List, [], ◌∷◌, str_eq,
  arith, Bool-cases,
}
use chekin_interview.Json.{Json, str, member}
use chekin_interview.Errors.{Exn}
use chekin_interview.Schemas.{Codec, TransferRequest, is_positive_money, dump_transfer_response}
use chekin_interview.Database.{Engine, Ends, All}
use chekin_interview.Database.Exec.{Result, ok, raise, pure, follow, ◌>>=◌}
use chekin_interview.Database.Rules.{Ends-bind, Ends-imp}
use chekin_interview.Logging.{Event}
use chekin_interview.Idempotency.{Outcome}
use chekin_interview.Idempotency.Key.{require_key}
use chekin_interview.Idempotency.Stored.{Raised-imp}
use chekin_interview.Idempotency.Logged.{Noted}
use chekin_interview.Idempotency.Logged.Tells.{
  Complaint, record_vanished, value_out_of_range, lock_timeout, deadlock, Complains,
}
use chekin_interview.Transfers.{operation}
use chekin_interview.Transfers.Refines as Paying
use chekin_interview.Transfers.Logged.{announced, execute_transfer_noted}
use chekin_interview.Transfers.Logged.Honest.{
  Announces, Repeats, Regrets, execute_transfer_noted-IsHonest,
}
use chekin_interview.Api.{Response, FieldError, answer, validation_error_handler}
use chekin_interview.Api.Routes.{Paid, Stepped, Fails, Paid-Stepped, replay_status}
use chekin_interview.Api.Logged.{post_transfers_noted}

-- Events of which none claims that a transfer is committed.
abbrev pub ClaimsNone : List Event → Type 0
ClaimsNone events = All (λ x. str_eq x.event "transfer.committed" ≡ false) events

Complaint-ClaimsNone :
    (key : String) (x : Exn) (line : Event)
    → Complaint operation key x line
    → ClaimsNone (line ∷ [])
Complaint-ClaimsNone key x line record_vanished = (refl, tt)
Complaint-ClaimsNone key x line value_out_of_range = (refl, tt)
Complaint-ClaimsNone key x line lock_timeout = (refl, tt)
Complaint-ClaimsNone key x line deadlock = (refl, tt)

Complains-ClaimsNone :
    (key : String) (x : Exn) (lines : List Event)
    → Complains operation key x lines
    → ClaimsNone lines
Complains-ClaimsNone key x lines (inl empty) = rw empty tt
Complains-ClaimsNone key x lines (inr (line, told, one)) =
    rw one (Complaint-ClaimsNone key x line told)

module _ (e : Engine) (c : Codec) (header : Option String) (req : TransferRequest)
    (amount_text : String) (s : e.Session) where
  open e use {Session, ghost}

  -- The response is a 201, and the events are those of its commit and of the transfer that it names.
  pub record Claims (r : Response) (events : List Event) : Type 0 where
    pub key : String
    pub transfer_id : Json
    pub header_key : require_key header ≡ ok key
    pub status : r.status ≡ 201
    pub of_response : member "transfer_id" r.content ≡ some transfer_id
    pub lines : events ≡ announced c key req amount_text transfer_id

  abbrev pub Answered : Response → Noted Session → Type 0
  Answered r n =
      (Stepped e header (Paid c req) s r n.session × Claims r n.events)
      ⊎ (((ghost.own n.session ≡ ghost.own s) × (r.status ≢ 201)) × ClaimsNone n.events)

  abbrev pub Failed : Exn → Noted Session → Type 0
  Failed x n = Fails e header (Paid c req) s x n.session × ClaimsNone n.events

  announces-Answered :
      (key : String) (o : Outcome) (n : Noted Session)
      → is_positive_money req.amount ≡ true
      → require_key header ≡ ok key
      → Announces e c key req amount_text s o n
      → Answered (answer o) n
  unfolding answer dump_transfer_response
  announces-Answered key o n p q x = inl (
    Paid-Stepped e c header key req s p q o n.session x.executed,
    record {
      key = key;
      transfer_id = str (c.uuid_text x.executed.step.transfer_id);
      header_key = q;
      status = x.executed.status;
      of_response = ap (member "transfer_id") x.executed.tells;
      lines = x.lines;
    },
  )

  repeats-Answered :
      (key : String) (o : Outcome) (n : Noted Session)
      → Repeats e c key req amount_text s o n
      → Answered (answer o) n
  unfolding answer
  repeats-Answered key o n (y, r) =
      inr ((y.own_kept, λ h. replay_status o y.stored y.answer h), rw (r.line) (refl, tt))

  paid-Answered :
      (key : String)
      → is_positive_money req.amount ≡ true
      → require_key header ≡ ok key
      → ghost.pending s ≡ []
      → Ends Answered Failed (
          (execute_transfer_noted e c key req amount_text >>= λ o. pure (answer o))
            (record { session = s; events = [] }))
  paid-Answered key p q idle =
      Ends-bind
        (λ o n. Announces e c key req amount_text s o n ⊎ Repeats e c key req amount_text s o n)
        Answered Failed (λ o. pure (answer o))
        (execute_transfer_noted e c key req amount_text (record { session = s; events = [] }))
        (Ends-imp _ _ (Regrets e c key req amount_text s) Failed
          (execute_transfer_noted e c key req amount_text (record { session = s; events = [] }))
          (execute_transfer_noted-IsHonest e c key req amount_text s idle) (λ o n k. k)
          (λ x n (k, told). (
            Raised-imp e (Paying.Executed e c key req)
                (λ s o s'. Stepped e header (Paid c req) s (answer o) s') s
                (Paid-Stepped e c header key req s p q) x n.session k,
            Complains-ClaimsNone key x n.events told,
          )))
        (λ o n. elim [
          | inl x ↦ announces-Answered key o n p q x
          | inr x ↦ repeats-Answered key o n x
        ])

  -- The endpoint, on a session with nothing pending.
  pub post_transfers_noted-Ends :
      (errors : List FieldError)
      → ghost.pending s ≡ []
      → Ends Answered Failed (
          post_transfers_noted e c errors req amount_text header
            (record { session = s; events = [] }))
  unfolding post_transfers_noted validation_error_handler
  post_transfers_noted-Ends errors idle = elim (Bool-cases (is_positive_money req.amount)) [
    | inr p ↦ rw p (inr ((refl, λ h. omega (arith, h)), tt))
    | inl p ↦ rw p (with_key p (require_key header) refl)
  ]
    where
      with_key :
          is_positive_money req.amount ≡ true
          → (k : Result String) → require_key header ≡ k
          → Ends Answered Failed (
              follow
                (λ key. execute_transfer_noted e c key req amount_text >>= λ o. pure (answer o))
                (k, record { session = s; events = [] }))
      with_key p (raise x) q = (inl refl, tt)
      with_key p (ok key) q = paid-Answered key p q idle
