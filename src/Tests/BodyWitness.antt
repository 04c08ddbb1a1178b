-- ===== src/Tests/BodyWitness.antt =====
-- Two bodies that say the same, in another order and another encoding of the amount.
use mathlib.Core.Logic.{◌↔◌}
use chekin_interview.Base.{
  ℕ, zero, suc, ◌*◌, String, ◌≡◌, refl, sym, ◌∙◌, ap, Option, none, some, true, false, ◌⊎◌, [],
  arith,
}
use chekin_interview.Base.Int.{ℤ, pos}
use chekin_interview.Base.Text.{text_length}
use chekin_interview.Json.{Json, num, str, obj, end, field}
use chekin_interview.Schemas.{Codec, is_positive_money, dump_transfer_request}
use chekin_interview.Schemas.Money.Reads.{read_money as money_of}
use chekin_interview.Schemas.Parsing.{Reading, parse_transfer_request, parse_create_request}
use chekin_interview.Schemas.Parsing.Bodies.{SameBody}
use chekin_interview.Schemas.Parsing.Fingerprint.{fingerprint-iff-SameBody}
use chekin_interview.Idempotency.{fingerprint, Outcome}
use chekin_interview.Idempotency.Contract.{after_race}
use chekin_interview.Database.Exec.{Result, ok}
use chekin_interview.Ledger.Reach.{Reach}
use chekin_interview.Transfers.{operation, execute_transfer}
use chekin_interview.Transfers.Refines as Paying
use chekin_interview.Transfers.Retry.Bodies.{replay-SameBody}
use chekin_interview.Memory.{Memory}
use chekin_interview.Memory.Laws.{memory}
use chekin_interview.Tests.Samples.{outcome}
use chekin_interview.Tests.{codec, pay, bank, session, runs}

-- As many marks as a number says: texts of ids that tell them apart.
marks : ℕ → String
marks zero = String.[]
marks (suc n) = String.◌∷◌ "x" (marks n)

length-marks : (n : ℕ) → text_length (marks n) ≡ n
unfolding marks
length-marks zero = refl
length-marks (suc n) = ap suc (length-marks n)

-- A hash that fits its column: the text without its first characters, which all requests share.
drop_text : ℕ → String → String
drop_text zero s = s
drop_text (suc n) String.[] = String.[]
drop_text (suc n) (String.◌∷◌ c s) = drop_text n s

abbrev marking : Codec
marking = record codec { uuid_text = marks; sha256 = drop_text 10 }

marks-injective : (i j : ℕ) → marks i ≡ marks j → i ≡ j
marks-injective i j h = sym (length-marks i) ∙ ap text_length h ∙ length-marks j

abbrev read_uuid : Json → Option ℕ
read_uuid (num n) = some n
read_uuid _ = none

abbrev read_money : Json → Option ℤ
read_money (num n) = some (pos (n * 10000))
read_money (str s) = money_of s
read_money _ = none

abbrev reading : Reading
reading = record { uuid = read_uuid; money = read_money }

abbrev body : Json
body =
    obj (
      field "from_account_id" (num 9) (field "to_account_id" (num 4) (field "amount" (num 25) end)))

abbrev resent_body : Json
resent_body = obj (
    field "amount" (str "25.0000")
      (field "from_account_id" (num 9) (field "to_account_id" (num 4) end)))

parses : parse_transfer_request reading body ≡ some (pay 9 4 250000)
unfolding parse_transfer_request is_positive_money
parses = refl

parses_resent : parse_transfer_request reading resent_body ≡ some (pay 9 4 250000)
unfolding parse_transfer_request is_positive_money
parses_resent = refl

-- A field that the class does not declare, and a missing one.
parses_extra :
    parse_transfer_request reading (
      obj (
        field "currency" (str "EUR") (
          field "from_account_id"
            (num 9)
            (field "to_account_id" (num 4) (field "amount" (num 25) end)))))
    ≡ none
unfolding parse_transfer_request is_positive_money
parses_extra = refl

parses_missing : parse_transfer_request reading (obj (field "amount" (num 25) end)) ≡ none
unfolding parse_transfer_request is_positive_money
parses_missing = refl

parses_empty : parse_create_request reading (obj end) ≡ some (record { initial_balance = pos 0 })
unfolding parse_create_request
parses_empty = refl

fingerprint-iff-SameBody_example :
    (fingerprint marking (dump_transfer_request marking (pay 9 4 250000))
      ≡ fingerprint marking (dump_transfer_request marking (pay 9 4 250000)))
    ↔ SameBody reading body resent_body
fingerprint-iff-SameBody_example =
    fingerprint-iff-SameBody marking marks-injective reading body resent_body (pay 9 4 250000)
      (pay 9 4 250000) parses parses_resent (λ same. refl)

-- The first body under a key, and the other one on another session.
abbrev paid : Result Outcome × Memory
paid = execute_transfer memory marking "k1" (pay 9 4 250000) (session bank [])

abbrev repeated : Result Outcome × Memory
repeated = execute_transfer memory marking "k1" (pay 9 4 250000) (session paid.1.stored [])

paid_ran :
    execute_transfer memory marking "k1" (pay 9 4 250000) (session bank [])
    ≡ (ok (outcome paid.0), paid.1)
unfolding runs marks drop_text
paid_ran = refl

repeated_ran :
    execute_transfer memory marking "k1" (pay 9 4 250000) (session paid.1.stored [])
    ≡ (ok (outcome repeated.0), repeated.1)
unfolding runs marks drop_text
repeated_ran = refl

paid_fresh : (outcome paid.0).replayed ≡ false
unfolding runs marks drop_text
paid_fresh = refl

repeated_again : (outcome repeated.0).replayed ≡ true
unfolding runs marks drop_text
repeated_again = refl

replay-SameBody_example :
    (at : Memory) × ((at ≡ (memory.get_key "k1" (session paid.1.stored [])).1)
      ⊎ (at
          ≡ (memory.get_key "k1" (
              after_race memory "k1" operation
                (Paying.hash memory marking "k1" (pay 9 4 250000))
                (Paying.work memory marking "k1" (pay 9 4 250000))
                (session paid.1.stored []))).1))
    × (Reach paid.1.stored at.stored → SameBody reading body resent_body)
replay-SameBody_example =
    replay-SameBody memory marking marks-injective reading "k1" body resent_body (pay 9 4 250000)
      (pay 9 4 250000) parses parses_resent (λ same. refl) (omega arith) (session bank [])
      (outcome paid.0) paid.1 refl paid_ran paid_fresh (session paid.1.stored [])
      (outcome repeated.0) repeated.1 refl repeated_ran repeated_again
