-- ===== src/Schemas.antt =====
-- app/schemas.py: requests and responses, and what `model_dump(mode="json")` makes of them.
pub mod Limits
pub mod Money
pub mod Parsing
use chekin_interview.Base.{ℕ, ◌+◌, ◌^◌, String, Bool, ◌&&◌, Option, none, some, List, ltb}
use chekin_interview.Base.Int.{ℤ, pos, pos_part, neg_part, ltb_ℤ, leb_ℤ}
use chekin_interview.Json.{Json, str, obj, arr, Items, nil, cons, Fields, end, field}
use chekin_interview.Models.{Account}
use Money.{money_text}

-- Amounts are in ten-thousandths: `decimal_places=4` lets no finer value in.
pub record TransferRequest : Type 0 where
  pub from_account_id : ℕ
  pub to_account_id : ℕ
  pub amount : ℤ

pub record CreateAccountRequest : Type 0 where
  pub initial_balance : ℤ

-- `Field(gt=0, max_digits=20, decimal_places=4)`: with four places, twenty digits leave sixteen
-- before the point.
unfoldable pub is_positive_money : ℤ → Bool
is_positive_money v = ltb_ℤ (pos 0) v && ltb (pos_part v + neg_part v) (10 ^ 20)

-- `Field(ge=0, max_digits=20, decimal_places=4)`
unfoldable pub is_non_negative_money : ℤ → Bool
is_non_negative_money v = leb_ℤ (pos 0) v && ltb (pos_part v + neg_part v) (10 ^ 20)

pub record TransferResponse : Type 0 where
  pub transfer_id : ℕ
  pub from_account_id : ℕ
  pub to_account_id : ℕ
  pub amount : ℤ
  pub created_at : ℕ

pub record TransactionItem : Type 0 where
  pub transfer_id : ℕ
  pub amount : ℤ
  pub direction : String
  pub counterparty_account_id : ℕ
  pub created_at : ℕ

-- `ErrorDetail` and `ErrorResponse`, the envelope of every failure; `details` may be left out.
pub record ErrorDetail : Type 0 where
  pub code : String
  pub message : String
  pub details : Option Fields

pub record ErrorResponse : Type 0 where
  pub error : ErrorDetail

abbrev pub optional_details : Option Fields → Fields
optional_details none = end
optional_details (some d) = field "details" (obj d) end

unfoldable pub dump_error_response : ErrorResponse → Json
dump_error_response r = obj (
    field "error"
      (obj (
        field "code" (str r.error.code)
          (field "message" (str r.error.message) (optional_details r.error.details))))
      end)

-- pydantic's texts of a UUID and of a time.
pub record Codec : Type 0 where
  pub uuid_text : ℕ → String
  pub time_text : ℕ → String
  -- `json.dumps` with sorted keys and no spaces, and the hex digest of `hashlib.sha256`.
  pub dumps : Json → String
  pub sha256 : String → String
  -- What a value is read back as from a column of type JSONB, which keeps no order of the keys.
  pub jsonb : Json → Json

module _ (c : Codec) where
  open c use {uuid_text, time_text}

  unfoldable pub dump_transfer_request : TransferRequest → Json
  dump_transfer_request req = obj (
      field "from_account_id" (str (uuid_text req.from_account_id)) (
        field "to_account_id" (str (uuid_text req.to_account_id))
          (field "amount" (str (money_text req.amount)) end)))

  unfoldable pub dump_transfer_response : TransferResponse → Json
  dump_transfer_response r = obj (
      field "transfer_id" (str (uuid_text r.transfer_id)) (
        field "from_account_id" (str (uuid_text r.from_account_id)) (
          field "to_account_id" (str (uuid_text r.to_account_id)) (
            field "amount" (str (money_text r.amount))
              (field "created_at" (str (time_text r.created_at)) end)))))

  -- `AccountResponse.model_validate(account).model_dump(mode="json")`
  unfoldable pub dump_account_response : Account → Json
  dump_account_response a = obj (
      field "id" (str (uuid_text a.id)) (
        field "balance" (str (money_text a.balance))
          (field "created_at" (str (time_text a.created_at)) end)))

  unfoldable pub dump_balance_response : ℕ → ℤ → Json
  dump_balance_response account_id balance = obj (
      field "account_id" (str (uuid_text account_id))
        (field "balance" (str (money_text balance)) end))

  unfoldable pub dump_transaction_item : TransactionItem → Json
  dump_transaction_item r = obj (
      field "transfer_id" (str (uuid_text r.transfer_id)) (
        field "amount" (str (money_text r.amount)) (
          field "direction" (str r.direction) (
            field "counterparty_account_id" (str (uuid_text r.counterparty_account_id))
              (field "created_at" (str (time_text r.created_at)) end)))))

unfoldable pub dump_create_request : CreateAccountRequest → Json
dump_create_request req = obj (field "initial_balance" (str (money_text req.initial_balance)) end)
