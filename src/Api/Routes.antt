-- ===== src/Api/Routes.antt =====
-- The two endpoints that change the tables, from the header and the validated body to the commit.
use chekin_interview.Base.{
  String, ◌≡◌, ◌≢◌, ap, ◌⊎◌, true, Option, List, [], ◌∷◌, ◌++◌, arith, if◌then◌else◌,
}
use chekin_interview.Base.Int.{ℤ, pos, ◌<ℤ◌, ◌≤ℤ◌}
use chekin_interview.Errors.{Exn}
use chekin_interview.Json.{Json}
use chekin_interview.Models.{IdempotencyKey, Tables, Write}
use chekin_interview.Schemas.{
  Codec, TransferRequest, CreateAccountRequest, is_positive_money, dump_transfer_request,
  dump_create_request, dump_transfer_response, dump_account_response,
}
use chekin_interview.Database.{Engine}
use chekin_interview.Database.Exec.{ok, Exec}
use chekin_interview.Idempotency.{Outcome, fingerprint}
use chekin_interview.Idempotency.Key.{require_key}
use chekin_interview.Idempotency.Replay.{stored_response}
use chekin_interview.Idempotency.Stored.{Raised}
use chekin_interview.Transfers.Refines as Paying
use chekin_interview.Accounts.Refines as Opening
use chekin_interview.Accounts
use chekin_interview.Ledger.{TransferStep, OpenStep}
use chekin_interview.Api.{Response, answer}

positive_of_valid : (v : ℤ) → is_positive_money v ≡ true → pos 0 <ℤ v
unfolding is_positive_money
positive_of_valid v h = ground arith

-- The transfer that a payload asks for was made under a key, as one step of the abstract ledger, and
-- a response body tells it.
pub record Paid (c : Codec) (req : TransferRequest) (key : String) (body : Json) (t u : Tables)
    : Type 0 where
  pub positive : pos 0 <ℤ req.amount
  pub step : TransferStep key (fingerprint c (dump_transfer_request c req)) req (c.jsonb body) t u
  pub tells :
      body
      ≡ dump_transfer_response c (record {
        transfer_id = step.transfer_id;
        from_account_id = req.from_account_id;
        to_account_id = req.to_account_id;
        amount = req.amount;
        created_at = step.now;
      })

-- The account that a payload asks for was opened under a key, as one step of the abstract ledger, and
-- a response body tells it.
pub record Funded (c : Codec) (req : CreateAccountRequest) (key : String) (body : Json)
    (t u : Tables) : Type 0 where
  pub not_negative : pos 0 ≤ℤ req.initial_balance
  pub step : OpenStep key (fingerprint c (dump_create_request req)) req (c.jsonb body) t u
  pub tells : body ≡ dump_account_response c step.account

module _ (e : Engine) (header : Option String)
    (Did : String → Json → Tables → Tables → Type 0) where
  open e use {Session, ghost}

  -- One transaction was committed, which did what was asked under the key of the header, and the
  -- response is a 201 that says that it is no replay.
  pub record Stepped (s : Session) (r : Response) (s' : Session) : Type 0 where
    pub key : String
    pub onto : Tables
    pub header_key : require_key header ≡ ok key
    pub did : Did key r.content onto (ghost.committed s')
    pub status : r.status ≡ 201
    pub headers : r.headers ≡ ("Idempotent-Replay", "false") ∷ []
    pub writes : List Write
    pub one_commit : ghost.own s' ≡ ghost.own s ++ writes ∷ []

  -- A response of an endpoint that changes the tables: one step, or nothing committed and no 201.
  abbrev pub Answers : Session → Response → Session → Type 0
  Answers s r s' = Stepped s r s' ⊎ ((ghost.own s' ≡ ghost.own s) × (r.status ≢ 201))

  -- An exception: nothing was committed, or the answer to the commit of one step was lost.
  abbrev pub Fails : Session → Exn → Session → Type 0
  Fails s = Raised e (λ s o s'. Stepped s (answer o) s') s

-- A replay is a 200.
pub replay_status : (o : Outcome) (r : IdempotencyKey) → o ≡ stored_response r → o.status_code ≢ 201
replay_status o r p h = omega (arith, h, ap (λ (o : Outcome). o.status_code) p)

module _ (e : Engine) (c : Codec) (header : Option String) where
  open e use {Session, ghost}

  pub Paid-Stepped :
      (key : String) (req : TransferRequest) (s : Session)
      → is_positive_money req.amount ≡ true
      → require_key header ≡ ok key
      → (o : Outcome) (s' : Session) → Paying.Executed e c key req s o s'
      → Stepped e header (Paid c req) s (answer o) s'
  unfolding answer
  Paid-Stepped key req s p q o s' x = record {
    key = key;
    onto = x.onto;
    header_key = q;
    did = record { positive = positive_of_valid req.amount p; step = x.step; tells = x.tells };
    status = x.status;
    headers = ap (λ b. ("Idempotent-Replay", if b then "true" else "false") ∷ []) x.not_replayed;
    writes = x.writes;
    one_commit = x.one_commit;
  }
