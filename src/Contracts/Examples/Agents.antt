-- ===== src/Contracts/Examples/Agents.antt =====
-- An assignment that is sealed, and an event that is accepted.
use jobman_control.Contracts.Examples.Fixtures.{
  host, plain, sealed, normal, execution, assignment, finished,
}
use jobman_control.Contracts.Executions.{EffectiveExecution, AgentAssignment, seal_agent_assignment}
use jobman_control.Contracts.Executions.Digests.{HasDigest, seal_agent_assignment-HasDigest}
use jobman_control.Contracts.Requests.Seal.{Sealed}
use jobman_control.Contracts.Events.{validate_execution_event}
use jobman_control.Contracts.Events.Facts.{CarriesOf, validate_execution_event-Carries}
use jobman_control.Contracts.Executions.{integer_leb}
use jobman_control.Contracts.Json.{canonical_value}
use jobman_control.Contracts.Sorting.{sort}
use jobman_control.Prelude.{[], ◌∷◌, true, some, pos, ok, err, ◌≡◌, refl}

abbrev sealed_execution : EffectiveExecution
sealed_execution = record execution {
  workload = record { digest = sealed.digest; document = normal };
  artifact_stores =
      record { name = "other"; version = pos 2 } ∷ record { name = "store"; version = pos 1 } ∷ [];
}

abbrev sealed_offer : Sealed AgentAssignment
sealed_offer = record {
  document = record assignment {
    effective_execution_digest = sealed.digest;
    effective_execution = sealed_execution;
  };
  canonical_json = "{}";
  digest = sealed.digest;
  inner_digests = sealed.digest ∷ [];
}

seals_assignment : seal_agent_assignment host plain plain assignment ≡ ok sealed_offer
unfolding seal_agent_assignment canonical_value sort
seals_assignment = refl

seal_agent_assignment-HasDigest_example : HasDigest host plain sealed_execution sealed.digest
seal_agent_assignment-HasDigest_example =
    seal_agent_assignment-HasDigest host plain plain assignment sealed_offer seals_assignment

accepts_finished : validate_execution_event finished ≡ ok tt
unfolding validate_execution_event
accepts_finished = refl

refuses_unclean_success :
    validate_execution_event (record finished {
      result = some (record {
        outcome = "success";
        exit_code = some (pos 1);
        signal = "";
        failure_code = "";
      });
    })
    ≡ err "success result is inconsistent"
unfolding validate_execution_event
refuses_unclean_success = refl

validate_execution_event-Carries_example :
    (integer_leb (pos 1) finished.sequence ≡ true) × CarriesOf "scheduler.completed" finished
validate_execution_event-Carries_example =
    validate_execution_event-Carries finished accepts_finished
