-- ===== src/Transfers/Retry/Bodies.antt =====
-- A replayed transfer, in terms of the bodies that the clients sent.
use chekin_interview.Models.Lookup.{some_inj}
use chekin_interview.Base.{ℕ, String, ◌≡◌, sym, ◌∙◌, ap, ◌⊎◌, true, false, some, []}
use chekin_interview.Base.Int.{pos, ◌<ℤ◌}
use chekin_interview.Json.{Json}
use chekin_interview.Models.{IdempotencyKey}
use chekin_interview.Schemas.{Codec, TransferRequest, dump_transfer_request}
use chekin_interview.Schemas.Parsing.{Reading, parse_transfer_request}
use chekin_interview.Schemas.Parsing.Bodies.{SameBody}
use chekin_interview.Schemas.Parsing.Fingerprint.{fingerprint-iff-SameBody}
use chekin_interview.Database.{Engine}
use chekin_interview.Database.Exec.{ok}
use chekin_interview.Idempotency.{Outcome, fingerprint}
use chekin_interview.Idempotency.Contract.{after_race}
use chekin_interview.Ledger.Reach.{Reach, transferred, Step-found, find_key-Reach}
use chekin_interview.Transfers.{operation, execute_transfer}
use chekin_interview.Transfers.Refines.{hash, work}
use chekin_interview.Transfers.Retry.{fresh-Executed, replayed-Stored}

module _ (e : Engine) (c : Codec)
    (uuid_injective : (i j : ℕ) → c.uuid_text i ≡ c.uuid_text j → i ≡ j) (p : Reading)
    (key : String) where
  open e use {Session, ghost}

  -- Ids with the same text are the same, two bodies were parsed to requests, SHA-256 tells the requests' JSON apart if they differ, and
  -- the first amount is positive. A call of execute_transfer on a session with nothing pending for
  -- the first returned an outcome that is no replay, and such a call for the second, under the same
  -- key, a replay. Then its record was read in the fast path, or after its own claim was rolled back,
  -- and if committed requests lead from the tables that the first call left to those of that read,
  -- the two bodies say the same: each field stands in neither, or in both with values that are read
  -- as the same.
  pub replay-SameBody :
      (j i : Json) (req req₂ : TransferRequest)
      → parse_transfer_request p j ≡ some req
      → parse_transfer_request p i ≡ some req₂
      → (fingerprint c (dump_transfer_request c req) ≡ fingerprint c (dump_transfer_request c req₂)
          → dump_transfer_request c req ≡ dump_transfer_request c req₂)
      → pos 0 <ℤ req.amount
      → (s : Session) (o : Outcome) (s' : Session) → ghost.pending s ≡ []
      → execute_transfer e c key req s ≡ (ok o, s')
      → o.replayed ≡ false
      → (t : Session) (o₂ : Outcome) (t' : Session) → ghost.pending t ≡ []
      → execute_transfer e c key req₂ t ≡ (ok o₂, t')
      → o₂.replayed ≡ true
      → (at : Session) × ((at ≡ (e.get_key key t).1)
          ⊎ (at
              ≡ (e.get_key key
                  (after_race e key operation (hash e c key req₂) (work e c key req₂) t)).1))
        × (Reach (ghost.committed s') (ghost.committed at) → SameBody p j i)
  replay-SameBody j i req req₂ from_j from_i digests positive s o s' idle ran fresh t o₂ t' idle₂
        ran₂ again =
      let first = fresh-Executed e c key req s o s' idle ran fresh in
      let second = replayed-Stored e c key req₂ t o₂ t' idle₂ ran₂ again in
      let claim = first.step.claim in
      (
        second.seen.at,
        second.seen.read,
        λ between.
            let kept =
              find_key-Reach key claim
                (Step-found
                  (transferred (hash e c key req) req (c.jsonb o.body) positive first.step))
                between in
            let same : second.stored ≡ claim = some_inj (sym second.seen.found ∙ kept) in
            (fingerprint-iff-SameBody c uuid_injective p j i req req₂ from_j from_i digests).0 (
              sym first.step.answered.same_hash
              ∙ ap (λ (r : IdempotencyKey). r.request_hash) (sym same)
              ∙ second.same_hash),
      )
