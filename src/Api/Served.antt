-- ===== src/Api/Served.antt =====
-- A whole request: its session, its route, and what becomes of a failure.
use chekin_interview.Base.{
  String, ◌≡◌, ◌≢◌, refl, sym, ◌∙◌, ◌⊎◌, inl, inr, Option, none, some, List, [], ◌∷◌, ◌++◌, arith,
}
use chekin_interview.Errors.{
  ErrorType, Exn, ledger, integrity_error, data_error, operational_error, other_exception,
  status_code, account_not_found, insufficient_funds, same_account_transfer,
  idempotency_key_conflict, lock_timeout, missing_idempotency_key, invalid_idempotency_key,
  amount_out_of_range, internal_error, validation_failed, ledger_error,
}
use chekin_interview.Json.{Json}
use chekin_interview.Models.{Tables, Write}
use chekin_interview.Schemas.{Codec}
use chekin_interview.Database.{Engine, Ends, IsLost}
use chekin_interview.Database.Exec.{Result, ok, raise, Exec}
use chekin_interview.Database.Sessions.{SessionMaker, get_db}
use chekin_interview.Idempotency.Key.{require_key}
use chekin_interview.Api.{Response, respond}
use chekin_interview.Api.Routes.{Stepped, Answers, Fails}

status_code-ne_created : (k : ErrorType) → status_code k ≢ 201
unfolding status_code
status_code-ne_created ledger_error h = omega (arith, h)
status_code-ne_created account_not_found h = omega (arith, h)
status_code-ne_created insufficient_funds h = omega (arith, h)
status_code-ne_created same_account_transfer h = omega (arith, h)
status_code-ne_created idempotency_key_conflict h = omega (arith, h)
status_code-ne_created lock_timeout h = omega (arith, h)
status_code-ne_created missing_idempotency_key h = omega (arith, h)
status_code-ne_created invalid_idempotency_key h = omega (arith, h)
status_code-ne_created amount_out_of_range h = omega (arith, h)
status_code-ne_created internal_error h = omega (arith, h)
status_code-ne_created validation_failed h = omega (arith, h)

respond-ok :
    (given : Option String) (new : String) (r : Response)
    → (respond given new (ok r)).status ≡ r.status
unfolding respond
respond-ok given new r = refl

pub respond-failed :
    (given : Option String) (new : String) (x : Exn) → (respond given new (raise x)).status ≢ 201
unfolding respond
respond-failed given new (ledger x) = status_code-ne_created x.kind
respond-failed given new (integrity_error x) = status_code-ne_created internal_error
respond-failed given new (data_error x) = status_code-ne_created internal_error
respond-failed given new (operational_error x) = status_code-ne_created internal_error
respond-failed given new (other_exception x) = status_code-ne_created internal_error

respond-lost :
    (given : Option String) (new : String) (x : Exn)
    → IsLost x
    → (respond given new (raise x)).status ≡ 500
unfolding respond status_code
respond-lost given new (ledger x) h = elim h [ ]
respond-lost given new (integrity_error x) h = elim h [ ]
respond-lost given new (data_error x) h = elim h [ ]
respond-lost given new (operational_error none) h = refl
respond-lost given new (operational_error (some x)) h = elim h [ ]
respond-lost given new (other_exception x) h = refl

module _ (e : Engine) (c : Codec) (maker : SessionMaker e) (given : Option String)
    (new : String) where
  open e use {Session, ghost}

  -- From the request to the response, with the session that `get_db` gives the route.
  unfoldable pub serve : Exec Session Response → Session → Response × Session
  unfolding get_db
  serve route s = let (r, s') = get_db e maker route s in (respond given new r, s')

  module _ (header : Option String) (Did : String → Json → Tables → Tables → Type 0) where
    -- The request did what was asked under the key of its header, with `body` as its response's body,
    -- and nothing else: `at` is the session just after the one commit.
    pub record Made (body : Json) (s s' : Session) : Type 0 where
      pub key : String
      pub onto : Tables
      pub at : Session
      pub header_key : require_key header ≡ ok key
      pub did : Did key body onto (ghost.committed at)
      pub writes : List Write
      pub one_commit : ghost.own at ≡ ghost.own s ++ writes ∷ []
      pub own_kept : ghost.own s' ≡ ghost.own at

    -- What a client can conclude from the status.
    abbrev pub Concludes : Session → Response × Session → Type 0
    Concludes s (r, s') =
        ((r.status ≡ 201) × Made r.content s s')
        ⊎ (((r.status ≢ 201) × (ghost.own s' ≡ ghost.own s))
            ⊎ ((r.status ≡ 500) × (body : Json) × Made body s s'))

    Stepped-Made :
        (s : Session) (r : Response) (at s' : Session)
        → Stepped e header Did (maker.new_session s) r at
        → ghost.own s' ≡ ghost.own at
        → Made r.content s s'
    Stepped-Made s r at s' x kept = record {
      key = x.key;
      onto = x.onto;
      at = at;
      header_key = x.header_key;
      did = x.did;
      writes = x.writes;
      one_commit = cc (x.one_commit, (maker.new_session_idle s).1);
      own_kept = kept;
    }

    pub served :
        (s : Session) (run : Result Response × Session)
        → Ends
            (Answers e header Did (maker.new_session s))
            (Fails e header Did (maker.new_session s))
            run
        → Concludes s (respond given new run.0, maker.close run.1)
    unfolding respond
    served s (ok r, t) (inl x) =
        inl (respond-ok given new r ∙ x.status, Stepped-Made s r t _ x (maker.close_ends t).1)
    served s (ok r, t) (inr (kept, other)) = inr (
        inl (
          λ h. other (sym (respond-ok given new r) ∙ h),
          cc (kept, (maker.close_ends t).1, (maker.new_session_idle s).1),
        ))
    served s (raise x, t) (inl kept) = inr (
        inl (
          respond-failed given new x,
          cc (kept, (maker.close_ends t).1, (maker.new_session_idle s).1),
        ))
    served s (raise x, t) (inr lost) = inr (
        inr (
          respond-lost given new x lost.is_lost,
          _,
          Stepped-Made s _ lost.at _ lost.executed ((maker.close_ends t).1 ∙ lost.own_kept),
        ))
