-- ===== src/Schemas/Parsing.antt =====
-- The request classes of app/schemas.py as what they declare: their fields, defaults and constraints, and
-- `extra="forbid"`. How pydantic reads a JSON value as a UUID or as a decimal is a parameter.
pub mod Bodies
pub mod Fingerprint
use chekin_interview.Base.{
  ℕ, String, Bool, true, false, ◌&&◌, ◌||◌, Option, none, some, List, [], ◌∷◌, str_eq,
  if◌then◌else◌,
}
use chekin_interview.Base.Int.{ℤ, pos}
use chekin_interview.Json.{Json, obj, Fields, end, field, lookup_field}
use chekin_interview.Schemas.{
  TransferRequest, CreateAccountRequest, is_positive_money, is_non_negative_money,
}

-- What a value is read as, or none, if it is an error of its field.
pub record Reading : Type 0 where
  -- `uuid.UUID`
  pub uuid : Json → Option ℕ
  -- `Decimal` with `decimal_places=4`, in ten-thousandths.
  pub money : Json → Option ℤ

abbrev pub and_then : {A B : Type 0} → Option A → (A → Option B) → Option B
and_then none f = none
and_then (some a) f = f a

unfoldable pub is_listed : String → List String → Bool
is_listed k [] = false
is_listed k (x ∷ xs) = str_eq k x || is_listed k xs

-- `extra="forbid"`: the body has no other fields.
unfoldable pub only : List String → Fields → Bool
unfolding is_listed
only names end = true
only names (field k v rest) = is_listed k names && only names rest

-- A field with no default.
unfoldable pub required : {A : Type 0} → (Json → Option A) → String → Fields → Option A
required read k fs = and_then (lookup_field k fs) read

abbrev pub or_default : {A : Type 0} → (Json → Option A) → A → Option Json → Option A
or_default read d none = some d
or_default read d (some v) = read v

-- A field with one, which is not validated.
unfoldable pub optional : {A : Type 0} → (Json → Option A) → A → String → Fields → Option A
optional read d k fs = or_default read d (lookup_field k fs)

unfoldable pub checked : (ℤ → Bool) → ℤ → Option ℤ
checked test v = if test v then some v else none

abbrev pub transfer_fields : List String
transfer_fields = "from_account_id" ∷ "to_account_id" ∷ "amount" ∷ []

abbrev pub account_fields : List String
account_fields = "initial_balance" ∷ []

module _ (p : Reading) where
  unfoldable pub transfer_of : Fields → Option TransferRequest
  unfolding required checked
  transfer_of fs = and_then (required p.uuid "from_account_id" fs) λ from_account_id.
      and_then (required p.uuid "to_account_id" fs) λ to_account_id.
        and_then (required p.money "amount" fs) λ given.
          and_then (checked is_positive_money given) λ amount. some (record {
            from_account_id = from_account_id;
            to_account_id = to_account_id;
            amount = amount;
          })

  -- A body as a `TransferRequest`; none is a 422.
  unfoldable pub parse_transfer_request : Json → Option TransferRequest
  unfolding only transfer_of
  parse_transfer_request (obj fs) = if only transfer_fields fs then transfer_of fs else none
  parse_transfer_request _ = none

  unfoldable pub account_of : Fields → Option CreateAccountRequest
  unfolding optional
  account_of fs =
      and_then
        (optional (λ v. and_then (p.money v) (checked is_non_negative_money)) (pos 0)
          "initial_balance" fs)
        λ initial_balance. some (record { initial_balance = initial_balance })

  -- A body as a `CreateAccountRequest`.
  unfoldable pub parse_create_request : Json → Option CreateAccountRequest
  unfolding only account_of
  parse_create_request (obj fs) = if only account_fields fs then account_of fs else none
  parse_create_request _ = none
