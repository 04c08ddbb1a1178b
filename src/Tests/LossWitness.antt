-- ===== src/Tests/LossWitness.antt =====
-- A transfer whose answer is lost, and its retry, at a concrete input.
use chekin_interview.Base.{◌≡◌, ◌≢◌, refl, ◌⊎◌, ap, length, arith, []}
use chekin_interview.Errors.{other_exception}
use chekin_interview.Models.{Tables}
use chekin_interview.Database.Exec.{Result, ok, raise}
use chekin_interview.Idempotency.{Outcome}
use chekin_interview.Ledger.{TransferStep}
use chekin_interview.Ledger.Reach.{Reach}
use chekin_interview.Transfers.{execute_transfer}
use chekin_interview.Transfers.Refines as Paying
use chekin_interview.Transfers.Retry.{Repeats, retry_after_loss}
use chekin_interview.Memory.{Memory}
use chekin_interview.Memory.Laws.{memory}
use chekin_interview.Tests.{codec, bank, session, unanswered, runs}
use chekin_interview.Tests.Samples.{outcome, first_request, first_positive, first_hash}

abbrev unheard : Result Outcome × Memory
unheard = execute_transfer memory codec "k1" first_request (session bank unanswered)

abbrev resent : Result Outcome × Memory
resent = execute_transfer memory codec "k1" first_request (session unheard.1.stored [])

unheard_ran :
    execute_transfer memory codec "k1" first_request (session bank unanswered)
    ≡ (raise (other_exception "ConnectionLost"), unheard.1)
unfolding runs
unheard_ran = refl

unheard_committed : unheard.1.commits ≢ []
unfolding runs
unheard_committed h = omega (arith, ap length h)

resent_ran :
    execute_transfer memory codec "k1" first_request (session unheard.1.stored [])
    ≡ (ok (outcome resent.0), resent.1)
unfolding runs
resent_ran = refl

retry_after_loss_example :
    (o : Outcome) × (done : Memory) × (first : Paying.Executed memory codec "k1" first_request
      (session bank unanswered)
      o
      done)
    × (unheard.1.commits ≡ done.commits)
    × (((onto : Tables) × TransferStep "k1" first_hash first_request
            (codec.jsonb (outcome resent.0).body)
            onto
            resent.1.stored
          × ¬ Reach done.stored onto)
        ⊎ Repeats memory codec "k1" first_request first_positive
            (session bank unanswered)
            o
            done
            first
            (session unheard.1.stored [])
            (outcome resent.0))
retry_after_loss_example =
    retry_after_loss memory codec "k1" first_request (session bank unanswered)
      (other_exception "ConnectionLost") unheard.1 first_positive refl unheard_ran unheard_committed
      (session unheard.1.stored []) (outcome resent.0) resent.1 refl resent_ran
