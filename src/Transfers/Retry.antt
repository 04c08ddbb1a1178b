-- ===== src/Transfers/Retry.antt =====
-- A retry of a transfer, on any instance, after other requests have been committed.
pub mod Bodies
use chekin_interview.Base.{String, ◌≡◌, ◌≢◌, ◌∙◌, sym, ap, true, false, ◌⊎◌, inl, inr, []}
use chekin_interview.Base.Int.{pos, ◌<ℤ◌}
use chekin_interview.Errors.{Exn}
use chekin_interview.Models.{IdempotencyKey, Tables}
use chekin_interview.Models.Lookup.{some_inj}
use chekin_interview.Schemas.{Codec, TransferRequest, dump_transfer_request}
use chekin_interview.Database.{Engine}
use chekin_interview.Database.Exec.{ok, raise}
use chekin_interview.Database.Rules.{Ends-ok, Ends-raise}
use chekin_interview.Idempotency.{Outcome, fingerprint, or_null}
use chekin_interview.Idempotency.Contract.{after_race}
use chekin_interview.Idempotency.Stored.{Stored, Raised}
use chekin_interview.Ledger.{TransferStep}
use chekin_interview.Ledger.Reach.{Reach, transferred, key_spent, Step-found, find_key-Reach}
use chekin_interview.Transfers.{operation, execute_transfer}
use chekin_interview.Transfers.Refines.{Executed, work, execute_transfer-refines}

module _ (e : Engine) (c : Codec) (key : String) where
  open e use {Session, ghost}

  abbrev hash : TransferRequest → String
  hash req = fingerprint c (dump_transfer_request c req)

  module _ (req : TransferRequest) (s : Session) (o : Outcome) (s' : Session)
      (idle : ghost.pending s ≡ []) (ran : execute_transfer e c key req s ≡ (ok o, s')) where
    -- How a call that has returned did so.
    returned :
        Executed e c key req s o s' ⊎ Stored e key operation (hash req) (work e c key req) s o s'
    returned =
        Ends-ok
          (λ o s'.
            Executed e c key req s o s'
            ⊎ Stored e key operation (hash req) (work e c key req) s o s')
          (Raised e (Executed e c key req) s) (execute_transfer e c key req s) o s'
          (execute_transfer-refines e c key req s idle) ran

    pub fresh-Executed : o.replayed ≡ false → Executed e c key req s o s'
    fresh-Executed h = elim returned [
      | inl x ↦ x
      | inr x ↦ absurd (cc (h, ap (λ (o : Outcome). o.replayed) x.answer))
    ]

    pub replayed-Stored :
        o.replayed ≡ true → Stored e key operation (hash req) (work e c key req) s o s'
    replayed-Stored h = elim returned [ inl x ↦ absurd (cc (h, x.not_replayed)) | inr x ↦ x ]

  -- After a transfer was executed, whether or not its caller was told.
  module _ (req : TransferRequest) (positive : pos 0 <ℤ req.amount) (s : Session) (o : Outcome)
      (s' : Session) (first : Executed e c key req s o s') where
    -- Another execution under the key stands on other tables.
    Executed-apart :
        (req₂ : TransferRequest) (t : Session) (o₂ : Outcome) (t' : Session)
        → pos 0 <ℤ req₂.amount
        → Executed e c key req₂ t o₂ t'
        → (onto : Tables) × TransferStep key
            (hash req₂)
            req₂
            (c.jsonb o₂.body)
            onto
            (ghost.committed t')
          × ¬ Reach (ghost.committed s') onto
    Executed-apart req₂ t o₂ t' positive₂ second = (
      second.onto,
      second.step,
      λ between.
          key_spent (transferred (hash req) req (c.jsonb o.body) positive first.step) between
            (transferred (hash req₂) req₂ (c.jsonb o₂.body) positive₂ second.step),
    )

    -- The read that a stored response came from, and what the response is, if committed requests
    -- lead from the tables of the execution to those of the read.
    abbrev pub Repeats : Session → Outcome → Type 0
    Repeats t o₂ =
        (at : Session) × ((at ≡ (e.get_key key t).1)
          ⊎ (at ≡ (e.get_key key (after_race e key operation (hash req) (work e c key req) t)).1))
        × (Reach (ghost.committed s') (ghost.committed at)
            → o₂ ≡ record { status_code = 200; body = c.jsonb o.body; replayed = true })

    Stored-Repeats :
        (t : Session) (o₂ : Outcome) (t' : Session)
        → Stored e key operation (hash req) (work e c key req) t o₂ t'
        → Repeats t o₂
    Stored-Repeats t o₂ t' second =
        let claim = first.step.claim in
        (
          second.seen.at,
          second.seen.read,
          λ between.
              let kept =
                find_key-Reach key claim
                  (Step-found (transferred (hash req) req (c.jsonb o.body) positive first.step))
                  between in
              let same : second.stored ≡ claim = some_inj (sym second.seen.found ∙ kept) in
              second.answer
              ∙ ap
                  (λ (r : IdempotencyKey). record {
                    status_code = 200;
                    body = or_null r.response_body;
                    replayed = true;
                  })
                  same
              ∙ ap (λ b. record { status_code = 200; body = or_null b; replayed = true })
                  first.step.answered.response,
        )

  module _ (req : TransferRequest) (positive : pos 0 <ℤ req.amount) (s : Session) (o : Outcome)
      (s' : Session) (idle : ghost.pending s ≡ [])
      (ran : execute_transfer e c key req s ≡ (ok o, s')) (fresh : o.replayed ≡ false) where
    -- A call on a session with nothing pending that returned an outcome that is no replay has used
    -- up its key. If any other such call under the key returns an outcome that is no replay, it has
    -- committed a transfer onto tables that no committed requests lead to from those that the first
    -- call left, whatever transfer it asks for. Both amounts are positive.
    pub never_twice :
        (req₂ : TransferRequest) (t : Session) (o₂ : Outcome) (t' : Session)
        → pos 0 <ℤ req₂.amount
        → ghost.pending t ≡ []
        → execute_transfer e c key req₂ t ≡ (ok o₂, t')
        → o₂.replayed ≡ false
        → (onto : Tables) × TransferStep key
            (hash req₂)
            req₂
            (c.jsonb o₂.body)
            onto
            (ghost.committed t')
          × ¬ Reach (ghost.committed s') onto
    never_twice req₂ t o₂ t' positive₂ idle₂ ran₂ fresh₂ =
        Executed-apart req positive s o s' (fresh-Executed req s o s' idle ran fresh) req₂ t o₂ t'
          positive₂ (fresh-Executed req₂ t o₂ t' idle₂ ran₂ fresh₂)

    -- If the same request returns a replay, the record was read in the fast path, or after its own
    -- claim was rolled back. If committed requests lead from the tables that the first call left to
    -- those of that read, the replay is the first call's body, as the JSONB column gives it
    -- back, with status 200. The amount is positive.
    pub retry_body :
        (t : Session) (o₂ : Outcome) (t' : Session)
        → ghost.pending t ≡ []
        → execute_transfer e c key req t ≡ (ok o₂, t')
        → o₂.replayed ≡ true
        → (at : Session) × ((at ≡ (e.get_key key t).1)
            ⊎ (at ≡ (e.get_key key (after_race e key operation (hash req) (work e c key req) t)).1))
          × (Reach (ghost.committed s') (ghost.committed at)
              → o₂ ≡ record { status_code = 200; body = c.jsonb o.body; replayed = true })
    retry_body t o₂ t' idle₂ ran₂ again =
        Stored-Repeats req positive s o s' (fresh-Executed req s o s' idle ran fresh) t o₂ t'
          (replayed-Stored req t o₂ t' idle₂ ran₂ again)

  -- A call on a session with nothing pending raised, although it has committed something: it has
  -- executed the transfer, as one step up to a session `done`. Let the same request return later, on
  -- a session with nothing pending. Then it has executed the transfer onto tables that no committed
  -- requests lead to from those of `done`, or it gives back a record that it has read, and if
  -- committed requests lead from the tables of `done` to those of that read, the answer is the body
  -- of the first call, as the JSONB column gives it back, with status 200. The amount is positive.
  pub retry_after_loss :
      (req : TransferRequest) (s : Session) (x : Exn) (s' : Session)
      (positive : pos 0 <ℤ req.amount)
      → ghost.pending s ≡ []
      → execute_transfer e c key req s ≡ (raise x, s')
      → ghost.own s' ≢ ghost.own s
      → (t : Session) (o₂ : Outcome) (t' : Session) → ghost.pending t ≡ []
      → execute_transfer e c key req t ≡ (ok o₂, t')
      → (o : Outcome) × (done : Session) × (first : Executed e c key req s o done) × (ghost.own s'
          ≡ ghost.own done)
        × (((onto : Tables) × TransferStep key
                (hash req)
                req
                (c.jsonb o₂.body)
                onto
                (ghost.committed t')
              × ¬ Reach (ghost.committed done) onto)
            ⊎ Repeats req positive s o done first t o₂)
  retry_after_loss req s x s' positive idle failed committed t o₂ t' idle₂ ran₂ =
      elim (Ends-raise _ (Raised e (Executed e c key req) s) (execute_transfer e c key req s) x s'
        (execute_transfer-refines e c key req s idle) failed) [
          | inl kept ↦ absurd (committed kept)
          | inr lost ↦ (
            lost.outcome,
            lost.at,
            lost.executed,
            lost.own_kept,
            elim (returned req t o₂ t' idle₂ ran₂) [
              | inl y ↦ inl (
                  Executed-apart req positive s lost.outcome lost.at lost.executed req t o₂ t'
                    positive y)
              | inr y ↦
                  inr (Stored-Repeats req positive s lost.outcome lost.at lost.executed t o₂ t' y)
            ],
          )
        ]
