-- ===== src/Store/Acceptance.antt =====
-- internal/store/postgres/executions.go, AcceptAssignment: what it does to the locked assignment,
-- execution, run and job. `now` is transaction_timestamp().
use jobman_control.Prelude.{
  ℕ, suc, String, Bool, true, false, ◌&&◌, not, Option, none, some, ◌∷◌, if◌then◌else◌, str_eq,
  Result, ok, err, ◌>>=◌, ◌>>◌, refuse,
}
use jobman_control.Store.Rows.{
  Error, forbidden, idempotency_conflict, conflict, Job, JobPhase, Run, RunPhase, Execution,
  ExecutionPhase, Assignment, AssignmentState, DesiredState, Dispatch, Work, AuditEvent,
  AgentIdentity, Acceptance, LaunchAuthorization,
}

abbrev pub is_planned : ExecutionPhase → Bool
is_planned ExecutionPhase.planned = true
is_planned _ = false

abbrev pub is_offered : AssignmentState → Bool
is_offered AssignmentState.offered = true
is_offered _ = false

abbrev pub wants_run : DesiredState → Bool
wants_run DesiredState.run = true
wants_run DesiredState.cancel = false

abbrev run_is_assigning : RunPhase → Bool
run_is_assigning RunPhase.assigning = true
run_is_assigning _ = false

abbrev job_is_assigning : JobPhase → Bool
job_is_assigning JobPhase.assigning = true
job_is_assigning _ = false

-- COALESCE(digest, '')
abbrev pub or_empty : Option String → String
or_empty none = ""
or_empty (some s) = s

unfoldable pub launch_authorization :
    String → String → String → String → String → ℕ → ℕ → Bool → LaunchAuthorization
launch_authorization authorization execution agent generation digest revision accepted_at replayed =
    record {
      authorization_id = authorization;
      execution_id = execution;
      agent_id = agent;
      target_generation_id = generation;
      effective_execution_digest = digest;
      revision = revision;
      accepted_at = accepted_at;
      replayed = replayed;
    }

-- The comparison of the request with the locked rows.
unfoldable pub binds : AgentIdentity → Acceptance → Execution → Assignment → Bool
binds identity a e s =
    str_eq e.id a.execution_id
    && str_eq s.agent_id identity.agent_id
    && str_eq a.agent_id identity.agent_id
    && str_eq e.target_generation_id identity.target_generation_id
    && str_eq a.target_generation_id e.target_generation_id
    && str_eq a.effective_execution_digest e.effective_spec_digest

-- The answer to a request for an assignment that is accepted already.
unfoldable pub replay_acceptance :
    Acceptance → Execution → Assignment → Result Error LaunchAuthorization
unfolding launch_authorization
replay_acceptance a e s = elim s.accepted_at [
  | none ↦ err idempotency_conflict
  | some at ↦
      if str_eq (or_empty s.acceptance_digest) a.request_digest
      then ok (
          launch_authorization a.delivery_id e.id s.agent_id e.target_generation_id
            e.effective_spec_digest e.revision at true)
      else err idempotency_conflict
]

-- The updates: each row moves only from the phase that its WHERE clause names.
unfoldable pub accept_assignment_row : ℕ → Acceptance → Assignment → Assignment
accept_assignment_row now a s =
    if is_offered s.state
    then record s {
      state = AssignmentState.accepted;
      accepted_at = some now;
      acceptance_digest = some a.request_digest;
      acceptance_document = some a.request_document;
    }
    else s

unfoldable pub accept_execution_row : ℕ → Execution → Execution
accept_execution_row now e =
    if is_planned e.phase
    then record e {
      phase = ExecutionPhase.accepted;
      revision = suc e.revision;
      accepted_at = some now;
    }
    else e

unfoldable pub accept_run_row : Run → Run
accept_run_row r = if run_is_assigning r.phase then record r { phase = RunPhase.accepted } else r

unfoldable pub accept_job_row : Job → Job
accept_job_row j =
    if job_is_assigning j.phase
    then record j { phase = JobPhase.accepted_execution; revision = suc j.revision }
    else j

acceptance_audit : AgentIdentity → Acceptance → Execution → AuditEvent
acceptance_audit identity a e = record {
  actor_kind = "agent";
  actor_id = identity.agent_id;
  action = "execution.accepted";
  resource_type = "execution";
  resource_id = e.id;
  request_digest = a.request_digest;
}

-- The rows after a new acceptance.
unfoldable pub accepted_work : AgentIdentity → Acceptance → ℕ → Work → Dispatch → Work
unfolding accept_assignment_row accept_execution_row accept_run_row accept_job_row acceptance_audit
accepted_work identity a now w d = record {
  job = accept_job_row w.job;
  dispatch = some (record {
    run = accept_run_row d.run;
    execution = accept_execution_row now d.execution;
    assignment = accept_assignment_row now a d.assignment;
  });
  audits = acceptance_audit identity a d.execution ∷ w.audits;
}

decide_acceptance :
    AgentIdentity
    → Acceptance
    → ℕ
    → Work
    → Dispatch
    → AssignmentState
    → Result Error (LaunchAuthorization × Work)
unfolding accepted_work replay_acceptance launch_authorization
decide_acceptance identity a now w d AssignmentState.accepted = do
  launch ← replay_acceptance a d.execution d.assignment
  ok (launch, w)
decide_acceptance identity a now w d AssignmentState.withdrawn = err conflict
decide_acceptance identity a now w d AssignmentState.offered =
    if wants_run w.job.desired_state
    then ok (
      launch_authorization a.delivery_id d.execution.id d.assignment.agent_id
          d.execution.target_generation_id d.execution.effective_spec_digest
          (suc d.execution.revision) now false,
      accepted_work identity a now w d,
    )
    else err conflict

-- The body of the transaction, on the rows that its first query locked.
unfoldable pub accept_assignment :
    AgentIdentity → Acceptance → ℕ → Work → Dispatch → Result Error (LaunchAuthorization × Work)
unfolding decide_acceptance binds
accept_assignment identity a now w d = do
  refuse (not (binds identity a d.execution d.assignment)) forbidden
  decide_acceptance identity a now w d d.assignment.state
