-- ===== src/Schemas/Parsing/Fingerprint.antt =====
-- What the fingerprint of a request says of its body.
use mathlib.Core.Logic.{◌↔◌}
use chekin_interview.Base.{ℕ, String, ◌≡◌, sym, ◌∙◌, ap, some}
use chekin_interview.Base.Int.{ℤ}
use chekin_interview.Json.{Json, str}
use chekin_interview.Schemas.{Codec, TransferRequest, dump_transfer_request}
use chekin_interview.Models.Lookup.{some_inj}
use chekin_interview.Schemas.Money.{money_text}
use chekin_interview.Schemas.Money.Reads.{read_money, read_money-money_text}
use chekin_interview.Schemas.Parsing.{Reading, parse_transfer_request}
use chekin_interview.Schemas.Parsing.Bodies.{
  parse_transfer_request-ParsedFrom, SameBody, SameBody-eq, eq-SameBody,
}
use chekin_interview.Idempotency.{fingerprint}

-- Two amounts with the same text.
money_text-injective : (v w : ℤ) → money_text v ≡ money_text w → v ≡ w
money_text-injective v w same =
    some_inj (sym (read_money-money_text v) ∙ ap read_money same ∙ read_money-money_text w)

str-injective : (s t : String) → str s ≡ str t → s ≡ t
str-injective s t h = cc h

module _ (c : Codec) (uuid_injective : (i j : ℕ) → c.uuid_text i ≡ c.uuid_text j → i ≡ j) where
  -- Two requests with the same JSON are the same.
  dump_transfer_request-injective :
      (r r' : TransferRequest) → dump_transfer_request c r ≡ dump_transfer_request c r' → r ≡ r'
  unfolding dump_transfer_request
  dump_transfer_request-injective r r' same =
      let from_eq = uuid_injective r.from_account_id r'.from_account_id (cc same) in
      let to_eq = uuid_injective r.to_account_id r'.to_account_id (cc same) in
      let amount_eq = money_text-injective r.amount r'.amount (cc same) in
      λ t. record { from_account_id = from_eq t; to_account_id = to_eq t; amount = amount_eq t }

  -- Let ids with the same text be the same, let two bodies be parsed to requests, and let SHA-256 tell
  -- the two requests' JSON apart if they differ. Then the requests have the same fingerprint exactly if the bodies say the same: each field
  -- stands in neither body, or in both with values that are read as the same.
  pub fingerprint-iff-SameBody :
      (p : Reading) (j i : Json) (r r' : TransferRequest)
      → parse_transfer_request p j ≡ some r
      → parse_transfer_request p i ≡ some r'
      → (fingerprint c (dump_transfer_request c r) ≡ fingerprint c (dump_transfer_request c r')
          → dump_transfer_request c r ≡ dump_transfer_request c r')
      → (fingerprint c (dump_transfer_request c r) ≡ fingerprint c (dump_transfer_request c r'))
        ↔ SameBody p j i
  fingerprint-iff-SameBody p j i r r' from_j from_i digests =
      let a = parse_transfer_request-ParsedFrom p j r from_j in
      let b = parse_transfer_request-ParsedFrom p i r' from_i in
      (
        λ same. eq-SameBody p r r' j i a b (dump_transfer_request-injective r r' (digests same)),
        λ same.
            ap (λ x. fingerprint c (dump_transfer_request c x)) (SameBody-eq p r r' j i a b same),
      )
