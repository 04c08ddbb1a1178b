-- ===== src/Api/Kinds.antt =====
-- Which domain errors the endpoints that change the tables can raise, against the lists that they
-- document.
use chekin_interview.Base.{
  ℕ, String, refl, inl, inr, Option, none, some, List, [], ◌∷◌, ◌==◌, Bool-cases, str_eq, ◌||◌, ltb,
}
use chekin_interview.Base.Int.{ltb_ℤ}
use chekin_interview.Base.Text.{text_length}
use chekin_interview.Errors.{
  ErrorType, amount_out_of_range, internal_error, missing_idempotency_key, invalid_idempotency_key,
}
use chekin_interview.Errors.Documented.{transfer_errors, account_errors}
use chekin_interview.Models.{Account, IdempotencyKey}
use chekin_interview.Schemas.{
  Codec, TransferRequest, CreateAccountRequest, dump_transfer_request, dump_create_request,
  is_positive_money, is_non_negative_money,
}
use chekin_interview.Database.{Engine}
use chekin_interview.Database.Exec.{pure, lift, ◌>>=◌}
use chekin_interview.Idempotency.Key.{require_key, strip, max_key_length}
use chekin_interview.Idempotency.Kinds.{
  Lists, Raises, Raises-bind, RaisesForeign, AddsKinds, weaken, execute_once-Raises,
}
use chekin_interview.Transfers.{
  operation, sorted, or_not_found, lock_each, lock_accounts, or_key_error, get_item, move_between,
  move_money, execute_transfer,
}
use chekin_interview.Accounts.{open_account}
use chekin_interview.Accounts
use chekin_interview.Api.{
  FieldError, post_transfers, post_accounts, create_transfer, create_account,
}

-- The listed failures of the two endpoints, with those that no list names.
abbrev pub transfer_kinds : List ErrorType
transfer_kinds = internal_error ∷ transfer_errors

abbrev pub account_kinds : List ErrorType
account_kinds = internal_error ∷ amount_out_of_range ∷ account_errors

require_key-IsTold :
    (ks : List ErrorType) (header : Option String)
    → Lists ks missing_idempotency_key
    → Lists ks invalid_idempotency_key
    → {S : Type 0} (s : S) → Raises ks (lift (require_key header) s)
unfolding require_key
require_key-IsTold ks none m i s = m
require_key-IsTold ks (some raw) m i s =
    elim (Bool-cases (str_eq raw "" || str_eq (strip raw) "")) [
      | inl p ↦ rw p m
      | inr p ↦ rw p (elim (Bool-cases (ltb max_key_length (text_length (strip raw)))) [
        | inl q ↦ rw q i
        | inr q ↦ rw q tt
      ])
    ]

module _ (e : Engine) (foreign : RaisesForeign e) (c : Codec) where
  open e use {Session}

  abbrev T : List ErrorType
  T = transfer_kinds

  lock_each-Raises : (is : List ℕ) (s : Session) → Raises T (lock_each e c is s)
  unfolding lock_each or_not_found
  lock_each-Raises [] s = tt
  lock_each-Raises (i ∷ is) s =
      Raises-bind T (λ r. or_not_found e c i r >>= λ a. lock_each e c is >>= λ l. pure ((i, a) ∷ l))
        (e.lock_account i s) (weaken T (e.lock_account i s) (foreign.lock_account i s))
        (found (lock_each-Raises is))
    where
      found :
          ((t : Session) → Raises T (lock_each e c is t))
          → (r : Option Account) (t : Session)
          → Raises T ((or_not_found e c i r >>= λ a. lock_each e c is >>= λ l. pure ((i, a) ∷ l)) t)
      found ih none t = search (inl, inr) depth 12
      found ih (some a) t =
          Raises-bind T (λ l. pure ((i, a) ∷ l)) (lock_each e c is t) (ih t) (λ l u. tt)

  or_key_error-Raises : (a : Option Account) (s : Session) → Raises T (or_key_error e c a s)
  unfolding or_key_error
  or_key_error-Raises none s = tt
  or_key_error-Raises (some a) s = tt

  move_between-Raises :
      (claim : IdempotencyKey) (req : TransferRequest) (source destination : Account) (s : Session)
      → Raises T (move_between e c claim req source destination s)
  unfolding move_between
  move_between-Raises claim req source destination s =
      elim (Bool-cases (ltb_ℤ source.balance req.amount)) [
        | inl p ↦ rw p (search (inl, inr) depth 12)
        | inr p ↦ rw p (
            Raises-bind T _ (e.now (e.uuid4 s).1)
              (weaken T (e.now (e.uuid4 s).1) (foreign.now (e.uuid4 s).1))
              (λ t u.
                Raises-bind T _ (e.flush _ _) (weaken T (e.flush _ _) (foreign.flush _ _))
                  (λ v w. tt)))
      ]

  move_money-Raises :
      (claim : IdempotencyKey) (req : TransferRequest) (s : Session)
      → Raises T (move_money e c claim req s)
  unfolding move_money lock_accounts
  move_money-Raises claim req s =
      Raises-bind T _ (lock_accounts e c (req.from_account_id ∷ req.to_account_id ∷ []) s)
        (lock_each-Raises (sorted (req.from_account_id ∷ req.to_account_id ∷ [])) s)
        (λ l t.
          Raises-bind T _ (or_key_error e c (get_item req.from_account_id l) t)
            (or_key_error-Raises _ t)
            (λ a u.
              Raises-bind T _ (or_key_error e c (get_item req.to_account_id l) u)
                (or_key_error-Raises _ u) (λ b v. move_between-Raises claim req a b v)))

  transfer-AddsKinds : AddsKinds T
  transfer-AddsKinds = record {
    conflicts = search (inl, inr) depth 12;
    vanishes = inl refl;
    overflows = search (inl, inr) depth 12;
    waits = search (inl, inr) depth 12;
  }

  execute_transfer-Raises :
      (key : String) (req : TransferRequest) (s : Session)
      → Raises T (execute_transfer e c key req s)
  unfolding execute_transfer
  execute_transfer-Raises key req s = elim (Bool-cases (req.from_account_id == req.to_account_id)) [
    | inl p ↦ rw p (search (inl, inr) depth 12)
    | inr p ↦ rw p (
        execute_once-Raises e foreign c T transfer-AddsKinds key operation
          (dump_transfer_request c req) (λ claim. move_money e c claim req) s
          (λ claim t. move_money-Raises claim req t))
  ]

  -- The domain errors that POST /transfers can raise, on a session that raises none of its own, are
  -- those that its documentation lists, and INTERNAL_ERROR.
  pub post_transfers-Raises :
      (errors : List FieldError) (req : TransferRequest) (header : Option String) (s : Session)
      → Raises transfer_kinds (post_transfers e c errors req header s)
  unfolding post_transfers create_transfer
  post_transfers-Raises errors req header s = elim (Bool-cases (is_positive_money req.amount)) [
    | inr p ↦ rw p tt
    | inl p ↦ rw p (
        Raises-bind T _ (lift (require_key header) s)
          (require_key-IsTold T header (search (inl, inr) depth 12) (search (inl, inr) depth 12) s)
          (λ key t.
            Raises-bind T _ (execute_transfer e c key req t) (execute_transfer-Raises key req t)
              (λ o u. tt)))
  ]

  open_account-Raises :
      (claim : IdempotencyKey) (req : CreateAccountRequest) (s : Session)
      → Raises account_kinds (open_account e c claim req s)
  unfolding open_account
  open_account-Raises claim req s =
      Raises-bind account_kinds _ (e.flush _ _)
        (weaken account_kinds (e.flush _ _) (foreign.flush _ _))
        (λ u t.
          Raises-bind account_kinds _ (e.refresh _ t)
            (weaken account_kinds (e.refresh _ t) (foreign.refresh _ t))
            (λ a v.
              Raises-bind account_kinds _ (e.flush _ v)
                (weaken account_kinds (e.flush _ v) (foreign.flush _ v)) (λ w x. tt)))

  account-AddsKinds : AddsKinds account_kinds
  account-AddsKinds = record {
    conflicts = search (inl, inr) depth 12;
    vanishes = inl refl;
    overflows = search (inl, inr) depth 12;
    waits = search (inl, inr) depth 12;
  }

  -- The domain errors that POST /accounts can raise, on a session that raises none of its own, are
  -- those that its documentation lists, INTERNAL_ERROR and AMOUNT_OUT_OF_RANGE.
  pub post_accounts-Raises :
      (errors : List FieldError) (req : CreateAccountRequest) (header : Option String) (s : Session)
      → Raises account_kinds (post_accounts e c errors req header s)
  unfolding post_accounts create_account Accounts.create_account
  post_accounts-Raises errors req header s =
      elim (Bool-cases (is_non_negative_money req.initial_balance)) [
        | inr p ↦ rw p tt
        | inl p ↦ rw p (
            Raises-bind account_kinds _ (lift (require_key header) s)
              (require_key-IsTold account_kinds header (search (inl, inr) depth 12)
                (search (inl, inr) depth 12) s)
              (λ key t.
                Raises-bind account_kinds _ (Accounts.create_account e c key req t)
                  (execute_once-Raises e foreign c account_kinds account-AddsKinds key
                    Accounts.operation (dump_create_request req)
                    (λ claim. open_account e c claim req) t
                    (λ claim u. open_account-Raises claim req u))
                  (λ o u. tt)))
      ]
