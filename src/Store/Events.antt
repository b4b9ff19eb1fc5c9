-- ===== src/Store/Events.antt =====
-- internal/store/postgres/executions.go, RecordExecutionEvent: what it does to the locked
-- execution, run and job. `taken` says that another execution has an event under the same
-- identity, which the primary key of execution_events refuses.
use jobman_control.Prelude.{
  ℕ, suc, String, Bool, true, false, ◌&&◌, ◌||◌, not, Option, none, some, List, [], ◌∷◌, ◌++◌, map,
  any, if◌then◌else◌, str_eq, Result, ok, err, ◌>>=◌, ◌>>◌, refuse, or_fail,
}
use jobman_control.Store.Rows.{
  Error, forbidden, idempotency_conflict, check_violation, duplicate_key, Job, JobPhase, RunPhase,
  Execution, ExecutionPhase, EventType, EventRow, Outcome, Confidence, Native, PublishedArtifact,
  Dispatch, AgentIdentity, ExecutionObservation,
}
use jobman_control.Store.EventChecks.{completes, prior_digest, check_event}

unfoldable pub event_row : AgentIdentity → ExecutionObservation → EventRow
event_row identity event = record {
  event_id = event.event_id;
  agent_id = identity.agent_id;
  source_sequence = event.sequence;
  event_type = event.event_type;
  observed_at = event.observed_at;
  document_digest = event.document_digest;
  document = event.document;
}

published_at : ℕ → PublishedArtifact → PublishedArtifact
published_at at a = record a { published_at = at }

-- The insertions: the event, newest first, and on completion its artifacts.
unfoldable pub insert_event : AgentIdentity → ExecutionObservation → Execution → Execution
unfolding event_row published_at completes
insert_event identity event e = record e {
  events = event_row identity event ∷ e.events;
  artifacts =
      if completes event.event_type
      then map (published_at event.observed_at) event.artifacts ++ e.artifacts
      else e.artifacts;
}

names_artifact : String → PublishedArtifact → Bool
names_artifact name a = str_eq a.name name

repeats_name : List PublishedArtifact → List PublishedArtifact → Bool
unfolding names_artifact
repeats_name [] old = false
repeats_name (a ∷ rest) old =
    any (names_artifact a.name) rest || any (names_artifact a.name) old || repeats_name rest old

-- The primary key of execution_artifacts is the execution and the name.
unfoldable pub repeats_artifact : ExecutionObservation → Execution → Bool
unfolding completes repeats_name
repeats_artifact event e = completes event.event_type && repeats_name event.artifacts e.artifacts

-- NULLIF(text, '')
abbrev null_if_empty : String → Option String
null_if_empty s = if str_eq s "" then none else some s

observed_native : ExecutionObservation → Native
observed_native event = record {
  backend = some event.scheduler_backend;
  state = some event.scheduler_state;
  reason = null_if_empty event.scheduler_reason;
  cluster = null_if_empty event.scheduler_cluster;
  observed_at = some event.observed_at;
}

abbrev reports_running : ExecutionObservation → Bool
reports_running event = str_eq event.scheduler_state "running"

abbrev run_is_accepted : RunPhase → Bool
run_is_accepted RunPhase.accepted = true
run_is_accepted _ = false

unfoldable pub start_process : ExecutionObservation → Job → Dispatch → Job × Dispatch
start_process event j d = (
  record j { phase = JobPhase.running; revision = suc j.revision },
  record d {
    execution = record e {
      phase = ExecutionPhase.running;
      native_id = some event.native_id;
      last_event_sequence = event.sequence;
      revision = suc e.revision;
    };
    run = record r { phase = RunPhase.running };
  },
)
  where
    open d use {execution as e, run as r}

-- The rows of a completion, with what `process.completed` leaves of the native columns. The CHECK
-- constraints of the tables refuse a terminal row without an outcome or a result.
unfoldable pub complete_rows :
    ExecutionObservation → Option String → Native → Job → Dispatch → Result Error (Job × Dispatch)
complete_rows event native_id native j d = do
  outcome ← or_fail event.outcome check_violation
  result ← or_fail event.result check_violation
  ok (
    record j { phase = JobPhase.terminal; outcome = some outcome; revision = suc j.revision },
    record d {
      execution = record d.execution {
        phase = ExecutionPhase.terminal;
        outcome = some outcome;
        process_result = some result;
        native_id = native_id;
        native = native;
        last_event_sequence = event.sequence;
        revision = suc d.execution.revision;
      };
      run = record d.run { phase = RunPhase.terminal; outcome = some outcome };
    },
  )

unfoldable pub observe_scheduler : ExecutionObservation → Job → Dispatch → Job × Dispatch
unfolding observed_native
observe_scheduler event j d = (
  (if reports_running event
      then record j { phase = JobPhase.running; revision = suc j.revision }
      else record j { revision = suc j.revision }),
  record d {
    execution = record e {
      phase = if reports_running event then ExecutionPhase.running else e.phase;
      native_id = if str_eq event.native_id "" then e.native_id else some event.native_id;
      native = observed_native event;
      last_event_sequence = event.sequence;
      revision = suc e.revision;
    };
    run =
        if reports_running event && run_is_accepted r.phase
        then record r { phase = RunPhase.running }
        else r;
  },
)
  where
    open d use {execution as e, run as r}

-- The switch on the event's type.
unfoldable pub advance_rows :
    ExecutionObservation → EventType → Job → Dispatch → Result Error (Job × Dispatch)
unfolding start_process complete_rows observe_scheduler
advance_rows event EventType.process_started j d = ok (start_process event j d)
advance_rows event EventType.process_completed j d =
    complete_rows event d.execution.native_id d.execution.native j d
advance_rows event EventType.scheduler_uncertain j d = ok (observe_scheduler event j d)
advance_rows event EventType.scheduler_submitted j d = ok (observe_scheduler event j d)
advance_rows event EventType.scheduler_observed j d = ok (observe_scheduler event j d)
advance_rows event EventType.scheduler_completed j d =
    complete_rows event (some event.native_id) (observed_native event) j d
advance_rows event (EventType.other t) j d = ok (j, d)

abbrev is_uncertain : EventType → Bool
is_uncertain EventType.scheduler_uncertain = true
is_uncertain _ = false

abbrev is_lost : Option Outcome → Bool
is_lost (some Outcome.lost) = true
is_lost _ = false

unfoldable pub event_confidence : ExecutionObservation → Confidence
event_confidence event =
    if is_uncertain event.event_type
    then Confidence.uncertain
    else if is_lost event.outcome || str_eq event.scheduler_state "lost"
    then Confidence.lost
    else Confidence.current

-- The part after the checks, where an INSERT may meet a row under its key, without the completion of collections and graphs.
unfoldable pub store_event :
    AgentIdentity → ExecutionObservation → Bool → Job → Dispatch → Result Error (Job × Dispatch)
unfolding insert_event advance_rows event_confidence repeats_artifact
store_event identity event taken j d = do
  refuse (taken || repeats_artifact event d.execution) duplicate_key
  (j', d') ←
      advance_rows event event.event_type j
        (record d { execution = insert_event identity event d.execution })
  ok (
    j',
    record d' {
      execution = record d'.execution { observation_confidence = event_confidence event };
    },
  )

-- The flag says that the event was stored before; then nothing changes.
unfoldable pub record_event :
    AgentIdentity
    → ExecutionObservation
    → Bool
    → Job
    → Dispatch
    → Result Error (Bool × Job × Dispatch)
unfolding prior_digest
record_event identity event taken j d =
    let prior = prior_digest event.event_id d.execution.events in
    if not
      (str_eq d.execution.agent_id identity.agent_id && str_eq event.agent_id identity.agent_id)
    then err forbidden
    else if not (str_eq prior "")
    then if str_eq prior event.document_digest then ok (true, j, d) else err idempotency_conflict
    else do
      check_event event d.execution
      (j', d') ← store_event identity event taken j d
      ok (false, j', d')
