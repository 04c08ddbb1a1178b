-- ===== src/Tests/Witnesses.antt =====
-- The theorems on the services and on the ledger at concrete inputs, on the engine in memory.
use chekin_interview.Base.{String, ◌≡◌, refl, ◌⊎◌, inl, inr, true, false, some, List, [], ◌∷◌}
use chekin_interview.Models.{Tables, Account, find_key}
use chekin_interview.Schemas.{dump_create_request}
use chekin_interview.Database.Exec.{Result, ok}
use chekin_interview.Idempotency.{Outcome, fingerprint}
use chekin_interview.Idempotency.Stored.{Stored}
use chekin_interview.Transfers.{operation, execute_transfer}
use chekin_interview.Transfers.Refines as Paying
use chekin_interview.Transfers.Retry.{never_twice, retry_body}
use chekin_interview.Accounts.Refines as Opening
use chekin_interview.Accounts.{create_account}
use chekin_interview.Accounts
use chekin_interview.Ledger.{TransferStep}
use chekin_interview.Idempotency.Contract.{after_race}
use chekin_interview.Ledger.Reach.{Step, transferred, Reach, here, empty, find_key-Reach}
use chekin_interview.Memory.{Memory}
use chekin_interview.Memory.Laws.{memory}
use chekin_interview.Tests.{codec, account, bank, session, first, again, runs}
use chekin_interview.Tests.Samples.{
  outcome, first_request, first_positive, first_record, first_hash, opening_request,
}

-- The first transfer of the tests, as a step of the abstract ledger.
paid : Paying.Executed memory codec "k1" first_request (session bank []) (outcome first.0) first.1
unfolding runs
paid =
    elim (Paying.execute_transfer-refines memory codec "k1" first_request (session bank []) refl) [
      | inl done ↦ done
      | inr stored ↦ cc stored.answer
    ]

first_ran :
    execute_transfer memory codec "k1" first_request (session bank [])
    ≡ (ok (outcome first.0), first.1)
unfolding runs
first_ran = refl

again_ran :
    execute_transfer memory codec "k1" first_request (session first.1.stored [])
    ≡ (ok (outcome again.0), again.1)
unfolding runs
again_ran = refl

not_replayed : (outcome first.0).replayed ≡ false
unfolding runs
not_replayed = refl

is_replayed : (outcome again.0).replayed ≡ true
unfolding runs
is_replayed = refl

never_twice_example :
    (onto : Tables) × TransferStep "k1" first_hash first_request
      (codec.jsonb (outcome first.0).body)
      onto
      first.1.stored
    × ¬ Reach first.1.stored onto
never_twice_example =
    never_twice memory codec "k1" first_request first_positive (session bank []) (outcome first.0)
      first.1 refl first_ran not_replayed first_request (session bank []) (outcome first.0) first.1
      first_positive refl first_ran not_replayed

retry_body_example :
    (at : Memory) × ((at ≡ (memory.get_key "k1" (session first.1.stored [])).1)
      ⊎ (at
          ≡ (memory.get_key "k1" (
              after_race memory "k1" operation first_hash
                (Paying.work memory codec "k1" first_request)
                (session first.1.stored []))).1))
    × (Reach first.1.stored at.stored
        → outcome again.0 ≡ record {
          status_code = 200;
          body = codec.jsonb (outcome first.0).body;
          replayed = true;
        })
retry_body_example =
    retry_body memory codec "k1" first_request first_positive (session bank []) (outcome first.0)
      first.1 refl first_ran not_replayed (session first.1.stored []) (outcome again.0) again.1 refl
      again_ran is_replayed

-- The first account of an empty database.
abbrev opened_first : Result Outcome × Memory
opened_first = create_account memory codec "k3" opening_request (session empty [])

abbrev new_first : List Account → Account
new_first [] = account 0 0
new_first (a ∷ xs) = a

abbrev opening_hash : String
opening_hash = fingerprint codec (dump_create_request opening_request)

paid-Step : Step "k1" paid.onto first.1.stored
paid-Step =
    transferred first_hash first_request (codec.jsonb (outcome first.0).body) first_positive
      paid.step

find_key-Reach_example :
    find_key "k3" opened_first.1.stored.idempotency_keys
    ≡ some (first_record opened_first.1.stored.idempotency_keys)
unfolding runs
find_key-Reach_example =
    find_key-Reach "k3" (first_record opened_first.1.stored.idempotency_keys)
      {t = opened_first.1.stored} refl here
