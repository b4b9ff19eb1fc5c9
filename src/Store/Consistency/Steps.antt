-- ===== src/Store/Consistency/Steps.antt =====
-- Acceptance, events and cancellation keep the rows of a job consistent.
use jobman_control.Store.Cancellation.{cancel_work, cancel_rows}
use jobman_control.Prelude.{
  ◌||◌, sym, ℕ, suc, Bool, true, false, some, ◌≡◌, refl, arith, ◌⊎◌, ok, none, Option, >>=-eq-ok,
  refuse, inl, String, inr,
}
use jobman_control.Store.Rows.{
  Job, AssignmentState, Dispatch, Work, AgentIdentity, Acceptance, ExecutionObservation, Execution,
  EventType, LaunchAuthorization, duplicate_key,
}
use jobman_control.Store.Acceptance.{
  accepted_work, accept_assignment, replay_acceptance, launch_authorization,
}
use jobman_control.Store.EventChecks.{check_event, valid_event_transition}
use jobman_control.Store.Events.{
  repeats_artifact, insert_event, advance_rows, record_event, store_event,
}
use jobman_control.Store.Consistency.{IsConsistent, RowsFit, WorkFits, Numbered}

accepted_work-IsConsistent :
    (identity : AgentIdentity) (a : Acceptance) (now : ℕ) (w : Work) (d : Dispatch)
    → d.assignment.state ≡ AssignmentState.offered
    → IsConsistent w.job d
    → (d' : Dispatch) × ((accepted_work identity a now w d).dispatch ≡ some d')
      × IsConsistent (accepted_work identity a now w d).job d'
unfolding accepted_work
accepted_work-IsConsistent identity a now w d o c = (_, refl, ground arith)

-- What the checks leave of an event.
pub check_event-eq-ok :
    (event : ExecutionObservation) (e : Execution)
    → check_event event e ≡ ok tt
    → (event.sequence ≡ suc e.last_event_sequence)
      × (valid_event_transition e.phase event.event_type ≡ true)
unfolding check_event
check_event-eq-ok event e h = ground arith

inserted-Numbered :
    (identity : AgentIdentity) (event : ExecutionObservation) (e : Execution)
    → event.sequence ≡ suc e.last_event_sequence
    → Numbered e.last_event_sequence e.events
    → Numbered event.sequence (insert_event identity event e).events
unfolding insert_event
inserted-Numbered identity event e s n = (refl, omega arith, (e.last_event_sequence, sym s, n))

module _ (identity : AgentIdentity) (event : ExecutionObservation) (j j' : Job)
    (d d' : Dispatch) where
  -- The rows after the switch, for each type of event that the transition allows.
  pub advance_rows-IsConsistent :
      (t : EventType)
      → IsConsistent j d
      → event.sequence ≡ suc d.execution.last_event_sequence
      → valid_event_transition d.execution.phase t ≡ true
      → advance_rows event t j (record d { execution = insert_event identity event d.execution })
        ≡ ok (j', d')
      → IsConsistent j' d'
  unfolding advance_rows insert_event valid_event_transition
  advance_rows-IsConsistent EventType.process_started c s v e =
      ground (arith, inserted-Numbered identity event d.execution)
  advance_rows-IsConsistent t c s v e = ground (arith, inserted-Numbered identity event d.execution)

-- A successful acceptance is a replay that changes nothing, or takes an offer of a job to be run.
pub accept_assignment-cases :
    (identity : AgentIdentity) (a : Acceptance) (now : ℕ) (w w' : Work) (d : Dispatch)
    (launch : LaunchAuthorization)
    → accept_assignment identity a now w d ≡ ok (launch, w')
    → (d.assignment.state ≡ AssignmentState.accepted) × (launch.replayed ≡ true) × (w' ≡ w)
      ⊎ (d.assignment.state ≡ AssignmentState.offered)
        × (launch.replayed ≡ false)
        × (w' ≡ accepted_work identity a now w d)
unfolding accept_assignment replay_acceptance launch_authorization
accept_assignment-cases identity a now w w' d launch h = ground arith

-- An acceptance that succeeds leaves the rows consistent, whether it is new or a replay.
pub accept_assignment-WorkFits :
    (identity : AgentIdentity) (a : Acceptance) (now : ℕ) (w w' : Work) (d : Dispatch)
    (launch : LaunchAuthorization)
    → w.dispatch ≡ some d
    → WorkFits w
    → accept_assignment identity a now w d ≡ ok (launch, w')
    → WorkFits w'
accept_assignment-WorkFits identity a now w w' d launch e c h =
    elim (accept_assignment-cases identity a now w w' d launch h) [
      | inl (_, _, same) ↦ rw same c
      | inr (offered, _, new) ↦
          let (d', e', c') = accepted_work-IsConsistent identity a now w d offered (rw e at c) in
          rw (new, e') c'
    ]

-- A recorded event is a replay that changes nothing, or passed the checks and was stored.
pub record_event-cases :
    (identity : AgentIdentity) (event : ExecutionObservation) (taken : Bool) (j j' : Job)
    (d d' : Dispatch) (replayed : Bool)
    → record_event identity event taken j d ≡ ok (replayed, j', d')
    → (replayed ≡ true) × (j' ≡ j) × (d' ≡ d)
      ⊎ (replayed ≡ false)
        × (check_event event d.execution ≡ ok tt)
        × (store_event identity event taken j d ≡ ok (j', d'))
unfolding record_event
record_event-cases identity event taken j j' d d' replayed h = ground arith

pub store_event-IsConsistent :
    (identity : AgentIdentity) (event : ExecutionObservation) (taken : Bool) (j j' : Job)
    (d d' : Dispatch)
    → IsConsistent j d
    → check_event event d.execution ≡ ok tt
    → store_event identity event taken j d ≡ ok (j', d')
    → IsConsistent j' d'
unfolding store_event
store_event-IsConsistent identity event taken j j' d d' c h e =
    let (_, _, advanced) =
      >>=-eq-ok (refuse (taken || repeats_artifact event d.execution) duplicate_key) _ e in
    let ((j1, d1), rows, last) = >>=-eq-ok (advance_rows event event.event_type j _) _ advanced in
    let (next, moves) = check_event-eq-ok event d.execution h in
    let c1 =
      advance_rows-IsConsistent identity event j j1 d d1 event.event_type c next moves rows in
    ground arith

-- A stored event keeps the rows consistent, and so does a replay.
pub record_event-IsConsistent :
    (identity : AgentIdentity) (event : ExecutionObservation) (taken : Bool) (j j' : Job)
    (d d' : Dispatch) (replayed : Bool)
    → IsConsistent j d
    → record_event identity event taken j d ≡ ok (replayed, j', d')
    → IsConsistent j' d'
record_event-IsConsistent identity event taken j j' d d' replayed c h =
    elim (record_event-cases identity event taken j j' d d' replayed h) [
      | inl (_, same_job, same) ↦ rw (same_job, same) c
      | inr (_, passed, stored) ↦
          store_event-IsConsistent identity event taken j j' d d' c passed stored
    ]

cancel_rows-RowsFit :
    (id : String) (j : Job) (d : Option Dispatch)
    → RowsFit j d
    → RowsFit (cancel_rows id j d).0 (cancel_rows id j d).1
unfolding cancel_rows
cancel_rows-RowsFit id j none c = ground arith
cancel_rows-RowsFit id j (some d) c = ground arith

-- A cancellation keeps the rows consistent.
pub cancel_work-WorkFits : (id : String) (w : Work) → WorkFits w → WorkFits (cancel_work id w)
unfolding cancel_work
cancel_work-WorkFits id w c = cancel_rows-RowsFit id w.job w.dispatch c
