-- ===== src/Tests/LogWitnesses.antt =====
-- The theorems on the lines of the log at concrete inputs.
use mathlib.Core.List.{map}
use chekin_interview.Base.{String, List, ◌≡◌, refl, ◌⊎◌, [], ◌∷◌}
use chekin_interview.Config.{default_settings}
use chekin_interview.Database.{Ends}
use chekin_interview.Database.Exec.{Result}
use chekin_interview.Logging.{Event, level_named, configure_logging, warning, info}
use chekin_interview.Idempotency.{Outcome}
use chekin_interview.Idempotency.Logged.{
  Noted, execute_once_noted, replay_existing_noted, claim_and_perform_noted, replay_noted,
}
use chekin_interview.Transfers.Logged.{execute_transfer_noted, note_outcome}
use chekin_interview.Transfers.Logged.Honest as Paying
use chekin_interview.Memory.{Memory}
use chekin_interview.Memory.Laws.{memory}
use chekin_interview.Tests.{codec, bank, session, first, runs}
use chekin_interview.Tests.Samples.{first_request, empty_log}

level_named_lem : level_named "WARN" ≡ warning
unfolding level_named
level_named_lem = refl

level_named_other : level_named "VERBOSE" ≡ info
unfolding level_named
level_named_other = refl

configure_logging_default : configure_logging (λ s. "INFO") default_settings ≡ empty_log
unfolding configure_logging
configure_logging_default = refl

execute_transfer_noted-IsHonest_example :
    Ends
      (λ o n.
        Paying.Announces memory codec "k1" first_request "12.50" (session bank []) o n
        ⊎ Paying.Repeats memory codec "k1" first_request "12.50" (session bank []) o n)
      (Paying.Regrets memory codec "k1" first_request "12.50" (session bank []))
      (Paying.run memory codec "k1" first_request "12.50" (session bank []))
execute_transfer_noted-IsHonest_example =
    Paying.execute_transfer_noted-IsHonest memory codec "k1" first_request "12.50" (session bank [])
      refl

-- The lines of the first transfer, and of its retry on another session.
events_of : Result Outcome × Noted Memory → List String
events_of (r, n) = map (λ (x : Event). x.event) n.events

first_events :
    events_of (Paying.run memory codec "k1" first_request "12.50" (session bank []))
    ≡ "idempotency.committed" ∷ "transfer.committed" ∷ []
unfolding runs events_of execute_transfer_noted execute_once_noted replay_existing_noted
    claim_and_perform_noted note_outcome
first_events = refl

again_events :
    events_of (Paying.run memory codec "k1" first_request "12.50" (session first.1.stored []))
    ≡ "idempotency.replayed" ∷ []
unfolding runs events_of execute_transfer_noted execute_once_noted replay_existing_noted
    replay_noted note_outcome
again_events = refl
