-- ===== src/Api/Bodies.antt =====
-- The two endpoints that change the tables, from the JSON body that a client sends.
use mathlib.Core.Path.{subst}
use chekin_interview.Base.{String, List, ◌≡◌, refl, true, Option, none, some, Bool-cases, inl, inr}
use chekin_interview.Json.{Json, null, num, decimal, bool, str, arr, obj, lookup_field}
use chekin_interview.Base.Int.{pos}
use chekin_interview.Schemas.{Codec, TransferRequest, CreateAccountRequest, is_non_negative_money}
use chekin_interview.Schemas.Parsing.{
  Reading, and_then, or_default, checked, only, optional, account_fields, parse_transfer_request,
  parse_create_request,
}
use chekin_interview.Schemas.Parsing.Bodies.{
  parse_transfer_request-ParsedFrom, and_then-eq-some, checked-eq-some,
}
use chekin_interview.Database.{Engine}
use chekin_interview.Database.Exec.{Exec, pure}
use chekin_interview.Api.{
  Response, FieldError, validation_error_handler, create_transfer, create_account, post_transfers,
  post_accounts,
}

module _ (e : Engine) where
  open e use {Session}

  -- A body that is no request never reaches the endpoint.
  unfoldable pub validated :
      {A : Type 0}
      → List FieldError
      → (A → Exec Session Response)
      → Option A
      → Exec Session Response
  validated errors endpoint none = pure (validation_error_handler errors)
  validated errors endpoint (some payload) = endpoint payload

module _ (e : Engine) (c : Codec) (p : Reading) where
  open e use {Session}

  unfoldable pub receive_transfer : List FieldError → Json → Option String → Exec Session Response
  unfolding validated
  receive_transfer errors body idempotency_key =
      validated e errors (λ payload. create_transfer e c payload idempotency_key)
        (parse_transfer_request p body)

  unfoldable pub receive_account : List FieldError → Json → Option String → Exec Session Response
  unfolding validated
  receive_account errors body idempotency_key =
      validated e errors (λ payload. create_account e c payload idempotency_key)
        (parse_create_request p body)

  -- What is proved of the endpoint on a payload holds of the body that the payload was parsed from.
  pub receive_transfer-post_transfers :
      (errors : List FieldError) (body : Json) (req : TransferRequest) (header : Option String)
      (s : Session)
      → parse_transfer_request p body ≡ some req
      → receive_transfer errors body header s ≡ post_transfers e c errors req header s
  unfolding receive_transfer post_transfers
  receive_transfer-post_transfers errors body req header s h =
      let from = parse_transfer_request-ParsedFrom p body req h in rw (h, from.positive) refl

  module _ (req : CreateAccountRequest) where
    -- The balance of a request, given or left to the default.
    balance-valid :
        (v : Option Json)
        → and_then
            (or_default (λ x. and_then (p.money x) (checked is_non_negative_money)) (pos 0) v)
            (λ initial_balance. some (record { initial_balance = initial_balance }))
          ≡ some req
        → is_non_negative_money req.initial_balance ≡ true
    unfolding is_non_negative_money
    balance-valid none h =
        let same : record { initial_balance = pos 0 } ≡ req = cc h in
        subst (λ (r : CreateAccountRequest). is_non_negative_money r.initial_balance ≡ true) same
          refl
    balance-valid (some x) h =
        let (b, hb, hr) = and_then-eq-some _ _ req h in
        let (w, hw, hc) = and_then-eq-some (p.money x) (checked is_non_negative_money) b hb in
        let same : record { initial_balance = b } ≡ req = cc hr in
        subst (λ (r : CreateAccountRequest). is_non_negative_money r.initial_balance ≡ true) same
          (checked-eq-some is_non_negative_money w b hc).1

    parsed-valid :
        (body : Json)
        → parse_create_request p body ≡ some req
        → is_non_negative_money req.initial_balance ≡ true
    unfolding parse_create_request optional
    parsed-valid (obj fs) h = elim (Bool-cases (only account_fields fs)) [
      | inl forbids ↦ balance-valid (lookup_field "initial_balance" fs) (rw forbids at h)
      | inr extra ↦ cc (rw extra at h)
    ]
    parsed-valid null h = cc h
    parsed-valid (num n) h = cc h
    parsed-valid (decimal t) h = cc h
    parsed-valid (bool b) h = cc h
    parsed-valid (str x) h = cc h
    parsed-valid (arr xs) h = cc h

    pub receive_account-post_accounts :
        (errors : List FieldError) (body : Json) (header : Option String) (s : Session)
        → parse_create_request p body ≡ some req
        → receive_account errors body header s ≡ post_accounts e c errors req header s
    unfolding receive_account post_accounts
    receive_account-post_accounts errors body header s h = rw (h, parsed-valid body h) refl
