-- ===== src/Store/Cancellation.antt =====
-- What a cancellation does to a job and its dispatch: internal/store/postgres/executions.go
-- (CancelJob) and collections.go (cancelCollectionSibling), which run the same statements.
use jobman_control.Prelude.{suc, String, Option, none, some, if◌then◌else◌}
use jobman_control.Store.Acceptance.{is_offered}
use jobman_control.Store.Rows.{
  Job, Work, Assignment, JobPhase, Execution, Dispatch, ActionState, ExecutionPhase, DesiredState,
  Outcome, RunPhase, AssignmentState,
}

-- The result that a job cancelled before its launch is given.
abbrev pub cancelled_before_launch : String
cancelled_before_launch = "{\"outcome\":\"cancelled\",\"failureCode\":\"cancelled_before_launch\"}"

unfoldable pub withdraw_assignment : Assignment → Assignment
withdraw_assignment s =
    if is_offered s.state then record s { state = AssignmentState.withdrawn } else s

unfoldable pub cancel_job_row : Job → Job
cancel_job_row j = record j {
  phase = JobPhase.terminal;
  desired_state = DesiredState.cancel;
  outcome = some Outcome.cancelled;
  revision = suc j.revision;
}

-- The execution was not accepted: nothing is launched, and all four rows are closed.
unfoldable pub cancel_planned : Dispatch → Dispatch
unfolding withdraw_assignment
cancel_planned d = record {
  assignment = withdraw_assignment d.assignment;
  execution = record d.execution {
    phase = ExecutionPhase.terminal;
    outcome = some Outcome.cancelled;
    process_result = some cancelled_before_launch;
    revision = suc d.execution.revision;
  };
  run = record d.run {
    phase = RunPhase.terminal;
    desired_state = DesiredState.cancel;
    outcome = some Outcome.cancelled;
  };
}

-- `INSERT … ON CONFLICT (execution_id, action_type) DO NOTHING`
unfoldable pub insert_cancel_action : String → Execution → Execution
insert_cancel_action action_id e = elim e.cancel_action [
  | some a ↦ e
  | none ↦ record e {
    cancel_action = some (record {
      id = action_id;
      agent_id = e.agent_id;
      revision = 1;
      state = ActionState.pending;
      delivery_count = 0;
      acknowledged_at = none;
    });
  }
]

-- The agent is asked once, and the wish is recorded on the run.
unfoldable pub request_cancel : String → Dispatch → Dispatch
unfolding insert_cancel_action
request_cancel action_id d = record d {
  execution = insert_cancel_action action_id d.execution;
  run = record d.run { desired_state = DesiredState.cancel };
}

cancel_dispatched : String → Job → Dispatch → ExecutionPhase → Job × Dispatch
unfolding cancel_job_row cancel_planned request_cancel
cancel_dispatched action_id j d ExecutionPhase.planned = (cancel_job_row j, cancel_planned d)
cancel_dispatched action_id j d _ = (
  record j { desired_state = DesiredState.cancel; revision = suc j.revision },
  request_cancel action_id d,
)

-- The switch on the execution that the job has.
unfoldable pub cancel_rows : String → Job → Option Dispatch → Job × Option Dispatch
unfolding cancel_dispatched
cancel_rows action_id j none = (cancel_job_row j, none)
cancel_rows action_id j (some d) =
    let (j', d') = cancel_dispatched action_id j d d.execution.phase in (j', some d')

unfoldable pub cancel_work : String → Work → Work
unfolding cancel_rows
cancel_work action_id w =
    let (j, d) = cancel_rows action_id w.job w.dispatch in record w { job = j; dispatch = d }

-- collections.go: a sibling of a failed job, or a node of a cancelled graph
unfoldable pub cancel_collection_sibling : String → Work → Work
unfolding cancel_work
cancel_collection_sibling action_id w = cancel_work action_id w
