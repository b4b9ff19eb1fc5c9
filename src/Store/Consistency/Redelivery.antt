-- ===== src/Store/Consistency/Redelivery.antt =====
-- Acceptances and events that an agent delivers again.
use jobman_control.Store.Consistency.Steps.{accept_assignment-cases, record_event-cases}
use jobman_control.Store.Acceptance.{
  accept_assignment, accepted_work, accept_run_row, replay_acceptance, launch_authorization,
  accept_execution_row, accept_assignment_row, binds,
}
use jobman_control.Store.Consistency.{WorkFits, IsConsistent}
use jobman_control.Store.Rows.{
  Execution, AssignmentState, AgentIdentity, Acceptance, ExecutionObservation, Work, Dispatch,
  EventType, Job, LaunchAuthorization, duplicate_key,
}
use jobman_control.Store.Events.{
  repeats_artifact, advance_rows, insert_event, record_event, store_event, event_row,
}
use jobman_control.Store.EventChecks.{prior_digest}
use jobman_control.Prelude.{
  ◌||◌, ℕ, Bool, true, false, some, str_eq, ok, refuse, ◌≡◌, refl, inl, inr, ◌≢◌, arith, eq_iff,
  eq_refl, >>=-eq-ok,
}

abbrev pub accepted_dispatch : AgentIdentity → Acceptance → ℕ → Dispatch → Dispatch
accepted_dispatch identity a now d = record {
  run = accept_run_row d.run;
  execution = accept_execution_row now d.execution;
  assignment = accept_assignment_row now a d.assignment;
}

module _ (identity : AgentIdentity) (a : Acceptance) (now later : ℕ) (w w' : Work) (d : Dispatch)
    (launch : LaunchAuthorization) where
  repeated_acceptance :
      d.assignment.state ≡ AssignmentState.accepted
      → accept_assignment identity a now w d ≡ ok (launch, w')
      → accept_assignment identity a later w d ≡ ok (record launch { replayed = true }, w)
  unfolding accept_assignment replay_acceptance launch_authorization
  repeated_acceptance state h = ground arith

  first_acceptance :
      d.assignment.state ≡ AssignmentState.offered
      → IsConsistent w.job d
      → accept_assignment identity a now w d ≡ ok (launch, w')
      → accept_assignment identity a later
          (accepted_work identity a now w d)
          (accepted_dispatch identity a now d)
        ≡ ok (record launch { replayed = true }, accepted_work identity a now w d)
  unfolding accept_assignment accepted_work replay_acceptance launch_authorization
      accept_assignment_row accept_execution_row binds
  first_acceptance state f h = ground (arith, eq_refl a.request_digest)

-- An acceptance of consistent rows that succeeded is answered again with the same authorization,
-- now marked as a replay, and then changes nothing.
pub accept_assignment_again :
    (identity : AgentIdentity) (a : Acceptance) (now later : ℕ) (w w' : Work) (d : Dispatch)
    (launch : LaunchAuthorization)
    → w.dispatch ≡ some d
    → WorkFits w
    → accept_assignment identity a now w d ≡ ok (launch, w')
    → (d' : Dispatch) × (w'.dispatch ≡ some d')
      × (accept_assignment identity a later w' d' ≡ ok (record launch { replayed = true }, w'))
accept_assignment_again identity a now later w w' d launch e f h =
    elim (accept_assignment-cases identity a now w w' d launch h) [
      | inl (state, again, same) ↦
          (d, rw same e, rw same (repeated_acceptance identity a now later w w' d launch state h))
      | inr (offered, fresh, new) ↦ (
        accepted_dispatch identity a now d,
        rw new (unfold accepted_work in refl),
        rw new (first_acceptance identity a now later w w' d launch offered (rw e at f) h),
      )
    ]

inserted_events :
    (identity : AgentIdentity) (event : ExecutionObservation) (t : EventType) (j j' : Job)
    (d d' : Dispatch)
    → advance_rows event t j (record d { execution = insert_event identity event d.execution })
      ≡ ok (j', d')
    → (d'.execution.events ≡ (insert_event identity event d.execution).events)
      × (d'.execution.agent_id ≡ d.execution.agent_id)
unfolding advance_rows insert_event
inserted_events identity event EventType.process_started j j' d d' h = ground arith
inserted_events identity event EventType.process_completed j j' d d' h = ground arith
inserted_events identity event EventType.scheduler_completed j j' d d' h = ground arith
inserted_events identity event EventType.scheduler_uncertain j j' d d' h = ground arith
inserted_events identity event EventType.scheduler_submitted j j' d d' h = ground arith
inserted_events identity event EventType.scheduler_observed j j' d d' h = ground arith
inserted_events identity event (EventType.other x) j j' d d' h = ground arith

stored_events :
    (identity : AgentIdentity) (event : ExecutionObservation) (taken : Bool) (j j' : Job)
    (d d' : Dispatch)
    → store_event identity event taken j d ≡ ok (j', d')
    → (d'.execution.events ≡ (insert_event identity event d.execution).events)
      × (d'.execution.agent_id ≡ d.execution.agent_id)
unfolding store_event
stored_events identity event taken j j' d d' h =
    let (_, _, advanced) =
      >>=-eq-ok (refuse (taken || repeats_artifact event d.execution) duplicate_key) _ h in
    let ((j1, d1), rows, last) = >>=-eq-ok (advance_rows event event.event_type j _) _ advanced in
    let (same, agent) = inserted_events identity event event.event_type j j1 d d1 rows in
    ground arith

inserted_digest :
    (identity : AgentIdentity) (event : ExecutionObservation) (e : Execution)
    → prior_digest event.event_id (insert_event identity event e).events ≡ event.document_digest
unfolding prior_digest insert_event event_row
inserted_digest identity event e = rw (eq_refl event.event_id) refl

module _ (identity : AgentIdentity) (event : ExecutionObservation) (taken later : Bool) (j j' : Job)
    (d d' : Dispatch) where
  repeated_event :
      record_event identity event taken j d ≡ ok (true, j', d')
      → record_event identity event later j d ≡ ok (true, j, d)
  unfolding record_event
  repeated_event h = ground arith

  same_agent :
      (replayed : Bool)
      → record_event identity event taken j d ≡ ok (replayed, j', d')
      → (str_eq d.execution.agent_id identity.agent_id ≡ true)
        × (str_eq event.agent_id identity.agent_id ≡ true)
  unfolding record_event
  same_agent replayed h = ground arith

  first_event :
      (replayed : Bool)
      → event.document_digest ≢ ""
      → record_event identity event taken j d ≡ ok (replayed, j', d')
      → store_event identity event taken j d ≡ ok (j', d')
      → record_event identity event later j' d' ≡ ok (true, j', d')
  unfolding record_event
  first_event replayed n h stored =
      let (events, agent) = stored_events identity event taken j j' d d' stored in
      let (mine, yours) = same_agent replayed h in
      let found : prior_digest event.event_id d'.execution.events ≡ event.document_digest =
        rw (events, inserted_digest identity event d.execution) refl in
      let miss : str_eq event.document_digest "" ≡ false =
        ground (arith, eq_iff event.document_digest "") in
      rw (agent, mine, yours, found, miss, eq_refl event.document_digest) refl

-- An event with a digest that was recorded, now or before, is answered as a replay when it is
-- delivered again, and then changes nothing.
pub record_event_again :
    (identity : AgentIdentity) (event : ExecutionObservation) (taken later : Bool) (j j' : Job)
    (d d' : Dispatch) (replayed : Bool)
    → event.document_digest ≢ ""
    → record_event identity event taken j d ≡ ok (replayed, j', d')
    → record_event identity event later j' d' ≡ ok (true, j', d')
record_event_again identity event taken later j j' d d' replayed n h =
    elim (record_event-cases identity event taken j j' d d' replayed h) [
      | inl (again, same_job, same) ↦
          rw (same_job, same) (repeated_event identity event taken later j j' d d' (rw again at h))
      | inr (_, passed, stored) ↦
          first_event identity event taken later j j' d d' replayed n h stored
    ]
