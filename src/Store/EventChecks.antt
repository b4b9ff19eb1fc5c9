-- ===== src/Store/EventChecks.antt =====
-- internal/store/postgres/executions.go, RecordExecutionEvent: the conditions on an event, and the
-- digest of the event that has its identity already.
use jobman_control.Prelude.{
  ℕ, suc, String, Bool, true, false, ◌&&◌, ◌||◌, not, Option, none, some, List, [], ◌∷◌,
  if◌then◌else◌, str_eq, Result, ◌>>◌, refuse, ◌==◌,
}
use jobman_control.Store.Rows.{
  Error, conflict, Execution, ExecutionPhase, ExecutionBackend, EventType, EventRow, StreamRow,
  StreamState, ExecutionObservation,
}
use jobman_control.Store.Artifacts.{validate_artifact_publication}

unfoldable pub scheduler_event : EventType → Bool
scheduler_event EventType.scheduler_uncertain = true
scheduler_event EventType.scheduler_submitted = true
scheduler_event EventType.scheduler_observed = true
scheduler_event EventType.scheduler_completed = true
scheduler_event _ = false

-- `event.Type == "process.completed" || event.Type == "scheduler.completed"`
unfoldable pub completes : EventType → Bool
completes EventType.process_completed = true
completes EventType.scheduler_completed = true
completes _ = false

unfoldable pub valid_event_transition : ExecutionPhase → EventType → Bool
valid_event_transition ExecutionPhase.accepted EventType.process_started = true
valid_event_transition ExecutionPhase.accepted EventType.process_completed = true
valid_event_transition ExecutionPhase.accepted EventType.scheduler_completed = true
valid_event_transition ExecutionPhase.accepted EventType.scheduler_uncertain = true
valid_event_transition ExecutionPhase.accepted EventType.scheduler_submitted = true
valid_event_transition ExecutionPhase.accepted EventType.scheduler_observed = true
valid_event_transition ExecutionPhase.running EventType.process_completed = true
valid_event_transition ExecutionPhase.running EventType.scheduler_completed = true
valid_event_transition ExecutionPhase.running EventType.scheduler_observed = true
valid_event_transition _ _ = false

abbrev pub is_slurm : ExecutionBackend → Bool
is_slurm ExecutionBackend.slurm = true
is_slurm ExecutionBackend.subprocess = false

abbrev pub is_some {ℓ} : {A : Type ℓ} → Option A → Bool
is_some none = false
is_some (some a) = true

abbrev pub differs : Bool → Bool → Bool
differs true b = not b
differs false b = b

-- COALESCE(existing.document_digest, '')
unfoldable pub prior_digest : String → List EventRow → String
prior_digest id [] = ""
prior_digest id (e ∷ es) = if str_eq e.event_id id then e.document_digest else prior_digest id es

unfoldable pub complete_streams : List StreamRow → ℕ
complete_streams [] = 0
complete_streams (s ∷ ss) =
    let rest = complete_streams ss in
    elim s.state [ StreamState.complete ↦ suc rest | StreamState.capturing ↦ rest ]

-- The conditions between the replay test and the first insertion.
unfoldable pub check_event : ExecutionObservation → Execution → Result Error (Unit {0})
unfolding scheduler_event completes valid_event_transition complete_streams
check_event event e = do
  refuse (not (event.sequence == suc e.last_event_sequence)) conflict
  refuse
      (differs (is_slurm e.execution_backend) (scheduler_event event.event_type)
        || scheduler_event event.event_type && not (str_eq event.scheduler_backend "slurm"))
      conflict
  refuse (not (valid_event_transition e.phase event.event_type)) conflict
  refuse
      (completes event.event_type
        && not (
            validate_artifact_publication e.outputs e.artifact_stores event.artifacts
              event.result_outcome))
      conflict
  refuse
      (completes event.event_type && is_some e.log_store && not (complete_streams e.streams == 2))
      conflict
