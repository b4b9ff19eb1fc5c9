-- ===== src/Store/Consistency.antt =====
-- What holds of a job and the run, execution and assignment that belong to it between two
-- transactions, and that acceptance and events keep it.
pub mod Steps
pub mod Redelivery
use jobman_control.Prelude.{
  ℕ, suc, ◌≤◌, Bool, true, false, some, List, [], ◌∷◌, ◌≡◌, ◌⊎◌, Option, none,
}
use jobman_control.Store.Rows.{
  Job, JobPhase, RunPhase, ExecutionPhase, AssignmentState, DesiredState, EventRow, Dispatch, Work,
}
use jobman_control.Store.EventChecks.{is_some}

abbrev pub job_phase_of : ExecutionPhase → JobPhase
job_phase_of ExecutionPhase.planned = JobPhase.assigning
job_phase_of ExecutionPhase.accepted = JobPhase.accepted_execution
job_phase_of ExecutionPhase.running = JobPhase.running
job_phase_of ExecutionPhase.terminal = JobPhase.terminal

abbrev pub run_phase_of : ExecutionPhase → RunPhase
run_phase_of ExecutionPhase.planned = RunPhase.assigning
run_phase_of ExecutionPhase.accepted = RunPhase.accepted
run_phase_of ExecutionPhase.running = RunPhase.running
run_phase_of ExecutionPhase.terminal = RunPhase.terminal

abbrev pub is_terminal : ExecutionPhase → Bool
is_terminal ExecutionPhase.terminal = true
is_terminal _ = false

-- The events of an execution, newest first, carry the sequence numbers n, …, 1.
abbrev pub Numbered : ℕ → List EventRow → Type 0
Numbered n [] = n ≡ 0
Numbered n (e ∷ es) = (e.source_sequence ≡ n) × (1 ≤ n) × ((m : ℕ) × (suc m ≡ n) × Numbered m es)

abbrev pub AssignmentFits : ExecutionPhase → AssignmentState → Type 0
AssignmentFits ExecutionPhase.planned s = s ≡ AssignmentState.offered
AssignmentFits ExecutionPhase.accepted s = s ≡ AssignmentState.accepted
AssignmentFits ExecutionPhase.running s = s ≡ AssignmentState.accepted
AssignmentFits ExecutionPhase.terminal s =
    (s ≡ AssignmentState.accepted) ⊎ (s ≡ AssignmentState.withdrawn)

pub record IsConsistent (j : Job) (d : Dispatch) : Type 0 where
  pub job_phase : j.phase ≡ job_phase_of d.execution.phase
  pub run_phase : d.run.phase ≡ run_phase_of d.execution.phase
  pub assignment_state : AssignmentFits d.execution.phase d.assignment.state
  pub job_outcome : j.outcome ≡ d.execution.outcome
  pub run_outcome : d.run.outcome ≡ d.execution.outcome
  pub terminal_outcome : is_some d.execution.outcome ≡ is_terminal d.execution.phase
  pub same_desire : d.run.desired_state ≡ j.desired_state
  pub planned_desire :
      d.execution.phase ≡ ExecutionPhase.planned → j.desired_state ≡ DesiredState.run
  pub numbered : Numbered d.execution.last_event_sequence d.execution.events

-- A job that was never assigned is waiting or over.
pub record IsUndispatched (j : Job) : Type 0 where
  pub job_phase : (j.phase ≡ JobPhase.accepted) ⊎ (j.phase ≡ JobPhase.terminal)
  pub waiting_outcome : j.phase ≡ JobPhase.accepted → j.outcome ≡ none
  pub waiting_desire : j.phase ≡ JobPhase.accepted → j.desired_state ≡ DesiredState.run
  pub terminal_outcome : j.phase ≡ JobPhase.terminal → is_some j.outcome ≡ true

abbrev pub RowsFit : Job → Option Dispatch → Type 0
RowsFit j none = IsUndispatched j
RowsFit j (some d) = IsConsistent j d

abbrev pub WorkFits : Work → Type 0
WorkFits w = RowsFit w.job w.dispatch
