-- ===== src/Store/Transactions/Evolves.antt =====
-- How each transaction changes the row of the job that it locks.
use jobman_control.Store.Consistency.Steps.{
  accept_assignment-cases, check_event-eq-ok, store_event-IsConsistent, record_event-cases,
}
use jobman_control.Store.Events.{
  repeats_artifact, advance_rows, store_event, record_event, insert_event,
}
use jobman_control.Store.EventChecks.{valid_event_transition, check_event}
use jobman_control.Store.Acceptance.{accepted_work, accept_assignment}
use jobman_control.Store.Database.Evolution.{Evolves, rank, Evolves-refl}
use jobman_control.Store.Consistency.{WorkFits, job_phase_of, IsConsistent}
use jobman_control.Store.Database.{job_is_terminal}
use jobman_control.Store.Cancellation.{cancel_work}
use jobman_control.Store.Rows.{
  Work, Dispatch, AgentIdentity, ExecutionObservation, Acceptance, Job, AssignmentState,
  LaunchAuthorization, EventType, Execution, ExecutionPhase, duplicate_key, JobPhase,
}
use jobman_control.Prelude.{
  ◌||◌, ℕ, ◌≤◌, String, Bool, true, false, Option, none, some, ok, refuse, ◌≡◌, refl, sym, ap, ◌∙◌,
  inl, inr, arith, >>=-eq-ok, subst,
}

cancel_rows-Evolves :
    (id : String) (w : Work) (d : Option Dispatch)
    → w.dispatch ≡ d
    → job_is_terminal w.job.phase ≡ false
    → WorkFits w
    → Evolves w (cancel_work id w)
unfolding cancel_work
cancel_rows-Evolves id w none e t f = ground arith
cancel_rows-Evolves id w (some d) e t f = ground arith

pub cancel_work-Evolves :
    (id : String) (w : Work)
    → job_is_terminal w.job.phase ≡ false
    → WorkFits w
    → Evolves w (cancel_work id w)
cancel_work-Evolves id w = cancel_rows-Evolves id w w.dispatch refl

accepted_work-Evolves :
    (identity : AgentIdentity) (a : Acceptance) (now : ℕ) (w : Work) (d : Dispatch)
    → w.dispatch ≡ some d
    → d.assignment.state ≡ AssignmentState.offered
    → WorkFits w
    → Evolves w (accepted_work identity a now w d)
unfolding accepted_work
accepted_work-Evolves identity a now w d e o f = ground arith

pub accept_assignment-Evolves :
    (identity : AgentIdentity) (a : Acceptance) (now : ℕ) (w w' : Work) (d : Dispatch)
    (launch : LaunchAuthorization)
    → w.dispatch ≡ some d
    → accept_assignment identity a now w d ≡ ok (launch, w')
    → WorkFits w
    → Evolves w w'
accept_assignment-Evolves identity a now w w' d launch e h f =
    elim (accept_assignment-cases identity a now w w' d launch h) [
      | inl (_, _, same) ↦ rw same (Evolves-refl w f)
      | inr (offered, _, new) ↦ rw new (accepted_work-Evolves identity a now w d e offered f)
    ]

-- What a new event does to the job's own row.
module _ (event : ExecutionObservation) (j j' : Job) (d d' : Dispatch) where
  record JobAdvances : Type 0 where
    same_id : j'.id ≡ j.id
    same_namespace : j'.namespace_id ≡ j.namespace_id
    same_owner : j'.owner_principal_id ≡ j.owner_principal_id
    same_desire : j'.desired_state ≡ j.desired_state
    phase_grows : rank j.phase ≤ rank j'.phase
    revision_grows : j.revision ≤ j'.revision

  advance_rows-JobAdvances :
      (t : EventType)
      → j.phase ≡ job_phase_of d.execution.phase
      → valid_event_transition d.execution.phase t ≡ true
      → advance_rows event t j d ≡ ok (j', d')
      → JobAdvances
  unfolding advance_rows valid_event_transition
  advance_rows-JobAdvances EventType.process_started p v e = ground arith
  advance_rows-JobAdvances t p v e = ground arith

store_event-JobAdvances :
    (identity : AgentIdentity) (event : ExecutionObservation) (taken : Bool) (j j' : Job)
    (d d' : Dispatch)
    → IsConsistent j d
    → check_event event d.execution ≡ ok tt
    → store_event identity event taken j d ≡ ok (j', d')
    → JobAdvances event j j' d d'
unfolding store_event insert_event
store_event-JobAdvances identity event taken j j' d d' c h e =
    let (_, _, advanced) =
      >>=-eq-ok (refuse (taken || repeats_artifact event d.execution) duplicate_key) _ e in
    let ((j1, d1), rows, last) = >>=-eq-ok (advance_rows event event.event_type j _) _ advanced in
    let (_, moves) = check_event-eq-ok event d.execution h in
    let a =
      advance_rows-JobAdvances event j j1
        (record d { execution = insert_event identity event d.execution }) d1 event.event_type
        c.job_phase moves rows in
    ground arith

unfoldable pub event_work : Work → Job → Dispatch → Work
event_work w j d = record w { job = j; dispatch = some d }

terminal_refuses :
    (event : ExecutionObservation) (e : Execution)
    → e.phase ≡ ExecutionPhase.terminal
    → check_event event e ≡ ok tt
    → ⊥
unfolding valid_event_transition
terminal_refuses event e p h = ground (arith, (check_event-eq-ok event e h).1)

phase_of_terminal :
    (p : ExecutionPhase) → job_phase_of p ≡ JobPhase.terminal → p ≡ ExecutionPhase.terminal
phase_of_terminal ExecutionPhase.planned h = cc
phase_of_terminal ExecutionPhase.accepted h = cc
phase_of_terminal ExecutionPhase.running h = cc
phase_of_terminal ExecutionPhase.terminal h = refl

stored_event-Evolves :
    (identity : AgentIdentity) (event : ExecutionObservation) (taken : Bool) (w : Work) (j' : Job)
    (d d' : Dispatch)
    → IsConsistent w.job d
    → check_event event d.execution ≡ ok tt
    → store_event identity event taken w.job d ≡ ok (j', d')
    → Evolves w (event_work w j' d')
unfolding event_work
stored_event-Evolves identity event taken w j' d d' c h e =
    let a = store_event-JobAdvances identity event taken w.job j' d d' c h e in
    record {
      same_id = a.same_id;
      same_namespace = a.same_namespace;
      same_owner = a.same_owner;
      phase_grows = a.phase_grows;
      revision_grows = a.revision_grows;
      cancel_stays = λ x. a.same_desire ∙ x;
      outcome_stays = λ t. absurd (
          terminal_refuses event d.execution
            (phase_of_terminal d.execution.phase (sym c.job_phase ∙ t)) h);
      still_fits = store_event-IsConsistent identity event taken w.job j' d d' c h e;
    }

same_work :
    (w : Work) (j' : Job) (d d' : Dispatch)
    → w.dispatch ≡ some d
    → j' ≡ w.job
    → d' ≡ d
    → w ≡ event_work w j' d'
unfolding event_work
same_work w j' d d' e same_job same =
    λ i. record { job = sym same_job i; dispatch = (e ∙ ap some (sym same)) i; audits = w.audits }

pub record_event-Evolves :
    (identity : AgentIdentity) (event : ExecutionObservation) (taken : Bool) (w : Work) (j' : Job)
    (d d' : Dispatch) (again : Bool)
    → w.dispatch ≡ some d
    → record_event identity event taken w.job d ≡ ok (again, j', d')
    → WorkFits w
    → Evolves w (event_work w j' d')
record_event-Evolves identity event taken w j' d d' again e h f =
    elim (record_event-cases identity event taken w.job j' d d' again h) [
      | inl (_, same_job, same) ↦
          subst (Evolves w) (same_work w j' d d' e same_job same) (Evolves-refl w f)
      | inr (_, passed, stored) ↦
          stored_event-Evolves identity event taken w j' d d' (rw e at f) passed stored
    ]
