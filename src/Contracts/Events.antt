-- ===== src/Contracts/Events.antt =====
-- contracts/jobman/v1alpha1/agent_contracts.go: execution events. The identifiers that the
-- source tests in the order of a map are tested in one order.
pub mod Facts
use jobman_control.Contracts.Requests.Seal.{Codec, Sealed, seal_document}
use jobman_control.Contracts.Executions.{check_id, integer_leb}
use jobman_control.Contracts.Workloads.{Host}
use jobman_control.Contracts.Workloads.Parts.{has_text, is_none, each}
use jobman_control.Contracts.Names.{Reason, text_bytes, matches_id}
use jobman_control.Contracts.Paths.{is_empty}
use jobman_control.Prelude.{
  String, Bool, true, ◌||◌, not, Option, List, [], ◌∷◌, if◌then◌else◌, str_eq, ltb, ℤ, pos, Result,
  err, ◌>>=◌, ◌>>◌, refuse, or_fail,
}
use jobman_control.Contracts.Offers.{Instant, valid_protocol_time}
use jobman_control.Contracts.Observations.{
  SchedulerObservation, ProcessResult, PublishedArtifact, nonterminal_states, terminal_states,
  validate_scheduler_observation, validate_process_result, validate_published_artifacts,
}

pub record ExecutionEvent : Type 0 where
  pub api_version : String
  pub kind : String
  pub event_id : String
  pub execution_id : String
  pub agent_id : String
  pub sequence : ℤ
  pub observed_at : Instant
  pub event_type : String
  pub native_id : String
  pub scheduler : Option SchedulerObservation
  pub result : Option ProcessResult
  pub artifacts : List PublishedArtifact

-- The facts of an event without a process's result, about a scheduler in one of some states.
unfoldable pub validate_scheduler_facts :
    List String → Bool → ExecutionEvent → Result Reason (Unit {0})
unfolding validate_scheduler_observation
validate_scheduler_facts states native e = do
  scheduler ← or_fail e.scheduler "invalid scheduler facts"
  refuse
      (not native
        || not (is_none e.result)
        || not (has_text scheduler.state states)
        || not (is_empty e.artifacts))
      "invalid scheduler facts"
  validate_scheduler_observation scheduler

unfoldable pub validate_started : ExecutionEvent → Result Reason (Unit {0})
unfolding text_bytes
validate_started e =
    refuse
      (str_eq e.native_id ""
        || ltb 4096 (text_bytes e.native_id)
        || not (is_none e.scheduler)
        || not (is_none e.result)
        || not (is_empty e.artifacts))
      "invalid process started facts"

unfoldable pub validate_process_completed : ExecutionEvent → Result Reason (Unit {0})
unfolding validate_process_result validate_published_artifacts
validate_process_completed e = do
  refuse (not (str_eq e.native_id "") || not (is_none e.scheduler))
      "invalid process completion facts"
  result ← or_fail e.result "invalid process completion facts"
  validate_process_result result
  validate_published_artifacts e.artifacts

unfoldable pub validate_scheduler_completed : ExecutionEvent → Result Reason (Unit {0})
unfolding validate_scheduler_observation validate_process_result validate_published_artifacts
validate_scheduler_completed e = do
  refuse (str_eq e.native_id "") "invalid scheduler completion facts"
  result ← or_fail e.result "invalid scheduler completion facts"
  scheduler ← or_fail e.scheduler "invalid scheduler completion facts"
  refuse (not (has_text scheduler.state terminal_states)) "invalid scheduler completion facts"
  validate_scheduler_observation scheduler
  validate_process_result result
  validate_published_artifacts e.artifacts

-- The switch over the types of events.
unfoldable pub validate_event_facts : ExecutionEvent → Result Reason (Unit {0})
unfolding validate_started validate_process_completed validate_scheduler_facts
    validate_scheduler_completed
validate_event_facts e =
    if str_eq e.event_type "process.started"
    then validate_started e
    else if str_eq e.event_type "process.completed"
    then validate_process_completed e
    else if str_eq e.event_type "scheduler.uncertain"
    then validate_scheduler_facts ("uncertain" ∷ []) (str_eq e.native_id "") e
    else if str_eq e.event_type "scheduler.submitted"
    then validate_scheduler_facts ("queued" ∷ "unknown" ∷ []) (not (str_eq e.native_id "")) e
    else if str_eq e.event_type "scheduler.observed"
    then validate_scheduler_facts nonterminal_states (not (str_eq e.native_id "")) e
    else if str_eq e.event_type "scheduler.completed"
    then validate_scheduler_completed e
    else err "unsupported event type"

unfoldable pub validate_execution_event : ExecutionEvent → Result Reason (Unit {0})
unfolding matches_id each validate_event_facts
validate_execution_event e = do
  refuse (not (str_eq e.api_version "jobman/v1alpha1") || not (str_eq e.kind "ExecutionEvent"))
      "unsupported contract"
  each check_id (e.event_id ∷ e.execution_id ∷ e.agent_id ∷ [])
  refuse (not (integer_leb (pos 1) e.sequence) || not (valid_protocol_time e.observed_at))
      "invalid ordering metadata"
  validate_event_facts e

abbrev pub in_universal_time : ExecutionEvent → ExecutionEvent
in_universal_time e = record e { observed_at = record e.observed_at { in_utc = true } }

unfoldable pub seal_execution_event :
    Host → Codec ExecutionEvent → ExecutionEvent → Result Reason (Sealed ExecutionEvent)
unfolding validate_execution_event seal_document
seal_execution_event host codec value = do
  cloned ← or_fail (codec.clone value) "clone"
  validate_execution_event (in_universal_time cloned)
  seal_document host codec [] (in_universal_time cloned)
