-- ===== src/Api/Logged/Honest.antt =====
-- What the lines of a request say is true: `transfer.committed` stands in the log for each 201, with the
-- request's id and that of its transfer, and for no other response.
use chekin_interview.Base.{String, ◌≡◌, ◌≢◌, ◌⊎◌, Option, some, List, ◌++◌}
use chekin_interview.Json.{Json, member}
use chekin_interview.Schemas.{Codec, TransferRequest}
use chekin_interview.Database.{Engine}
use chekin_interview.Database.Exec.{Result, ok}
use chekin_interview.Database.Sessions.{SessionMaker}
use chekin_interview.Logging.{Event, Log, Line}
use chekin_interview.Idempotency.Key.{require_key}
use chekin_interview.Idempotency.Logged.{Noted}
use chekin_interview.Transfers.Logged.{announced}
use chekin_interview.Api.{Response, request_id}
use chekin_interview.Api.Context.{stamped, respond_logged}
use chekin_interview.Api.Routes.{Paid}
use chekin_interview.Api.Served.{Concludes}
use chekin_interview.Api.Logged.Endpoint.{ClaimsNone}

module _ (c : Codec) (given : Option String) (new : String) (header : Option String)
    (req : TransferRequest) (amount_text : String) (l : Log) where
  -- What a request adds to the log, as its response tells.
  abbrev pub LogsOf : Response → List Line → Type 0
  LogsOf reply lines =
      ((key : String) × (transfer_id : Json) × (require_key header ≡ ok key)
        × (reply.status ≡ 201)
        × (member "transfer_id" reply.content ≡ some transfer_id)
        × (lines
            ≡ l.lines
              ++ stamped l.threshold (request_id given new)
                  (announced c key req amount_text transfer_id)))
      ⊎ ((reply.status ≢ 201)
          × (inside : List Event) × (outside : List Event) × ClaimsNone inside
          × ClaimsNone outside
          × (lines
              ≡ (l.lines ++ stamped l.threshold (request_id given new) inside)
                ++ stamped l.threshold l.request_id outside))

module _ (e : Engine) (c : Codec) (maker : SessionMaker e) (given : Option String) (new : String)
    (header : Option String) (req : TransferRequest) (amount_text : String) (s : e.Session)
    (l : Log) where
  -- What a request leads to: `run` is that of its route.
  abbrev pub Tells : Result Response × Noted e.Session → Type 0
  Tells run =
      let (reply, after) = respond_logged given new run.1.events run.0 l in
      Concludes e c maker given new header (Paid c req) s (reply, maker.close run.1.session)
      × LogsOf c given new header req amount_text l reply after.lines
