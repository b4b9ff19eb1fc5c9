-- ===== src/Store/Histories.antt =====
-- Histories of the tables: any sequence of the transactions of internal/store/postgres that are
-- modelled, each with the arguments that a caller may choose, and what every history keeps.
use jobman_control.Store.Actions.{Acknowledgement, acknowledge_desired_action}
use jobman_control.Store.Actions.Again.{acknowledge_desired_action-WorksEvolve}
use jobman_control.Store.Logs.Delivery.{commit_log_chunk}
use jobman_control.Store.Logs.Tables.{commit_log_chunk-WorksEvolve}
use jobman_control.Store.Coordinator.Offer.{Identifiers, reconcile_one_assignment}
use jobman_control.Store.Coordinator.Claims.{reconcile_one_assignment-WorksEvolve}
use jobman_control.Store.Transactions.{
  accept_assignment_transaction, record_execution_event, Authorization, cancel_job,
}
use jobman_control.Store.EventChecks.{is_some}
use jobman_control.Store.Consistency.{WorkFits, RowsFit}
use jobman_control.Store.Transactions.Safety.{
  accept_assignment_transaction-WorksEvolve, record_execution_event-WorksEvolve,
}
use jobman_control.Store.Transactions.Stops.{cancel_job-WorksEvolve}
use jobman_control.Store.Database.Evolution.{
  WorksEvolve, IsSound, WorksEvolve-refl, Evolves, WorksEvolve-IsSound, WorksEvolve-trans,
  Evolves-terminal, AllEvolve, WorksEvolve-AllEvolve,
}
use jobman_control.Store.Database.{Database, GenerationRow, AgentRow}
use jobman_control.Store.Rows.{
  Error, Work, AgentIdentity, JobPhase, Acceptance, LaunchAuthorization, Dispatch,
  ExecutionObservation, Job, LogChunk, Outcome,
}
use jobman_control.Prelude.{
  ℕ, String, Bool, true, Option, none, some, List, [], ◌∷◌, Result, ok, ◌≡◌, refl, inl, inr, arith,
  All, Member, subst,
}

-- A committed transaction.
pub data Step (db db' : Database) : Type 0 where
  accepts :
      (identity : AgentIdentity) (a : Acceptance) (now : ℕ) (launch : LaunchAuthorization)
      → accept_assignment_transaction identity a now db ≡ ok (launch, db')
      → Step db db'
  records :
      (new_id : String → String) (identity : AgentIdentity) (event : ExecutionObservation)
      (again : Bool)
      → record_execution_event new_id identity event db ≡ ok (again, db')
      → Step db db'
  cancels :
      (new_id : String → String) (authorization : Authorization) (id key digest : String) (j : Job)
      → cancel_job new_id authorization id key digest db ≡ ok (j, db')
      → Step db db'
  assigns :
      (seal : Work → GenerationRow → AgentRow → Identifiers → Result Error String)
      (ids : Identifiers) (now : ℕ) (made : Bool)
      → reconcile_one_assignment seal ids now db ≡ ok (made, db')
      → Step db db'
  delivers :
      (identity : AgentIdentity) (chunk : LogChunk) (now : ℕ) (again : Bool)
      → commit_log_chunk identity chunk now db ≡ ok (again, db')
      → Step db db'
  acknowledges :
      (identity : AgentIdentity) (ack : Acknowledgement) (again : Bool)
      → acknowledge_desired_action identity ack db ≡ ok (again, db')
      → Step db db'

pub Step-WorksEvolve :
    (db db' : Database) → IsSound db.works → Step db db' → WorksEvolve db.works db'.works
Step-WorksEvolve db db' s (accepts identity a now launch h) =
    accept_assignment_transaction-WorksEvolve identity a now db db' launch s h
Step-WorksEvolve db db' s (records new_id identity event again h) =
    record_execution_event-WorksEvolve new_id identity event db db' again s h
Step-WorksEvolve db db' s (cancels new_id authorization id key digest j h) =
    cancel_job-WorksEvolve new_id authorization id key digest db db' j s h
Step-WorksEvolve db db' s (assigns seal ids now made h) =
    reconcile_one_assignment-WorksEvolve seal ids now db db' made s h
Step-WorksEvolve db db' s (delivers identity chunk now again h) =
    commit_log_chunk-WorksEvolve identity chunk now db db' again s h
Step-WorksEvolve db db' s (acknowledges identity ack again h) =
    acknowledge_desired_action-WorksEvolve identity ack db db' again h

pub data History (db : Database) : Database → Type 0 where
  starts : History db db
  then_commits : {mid last : Database} → History db mid → Step mid last → History db last

history_path :
    (db last : Database)
    → IsSound db.works
    → History db last
    → IsSound last.works × WorksEvolve db.works last.works
history_path db last s starts = (s, WorksEvolve-refl db.works)
history_path db last s (then_commits {mid} h step) =
    let (sound, path) = history_path db mid s h in
    let more = Step-WorksEvolve mid last sound step in
    (
      WorksEvolve-IsSound mid.works last.works more sound,
      WorksEvolve-trans db.works mid.works last.works path more,
    )

-- Sound tables stay sound in every history: the rows of every job fit together and identities stay
-- distinct. No job is lost or added, and each evolves: its identity, namespace and owner stay, its
-- phase and revision do not fall, a wish to cancel stays, and so does a terminal job's outcome.
pub History-AllEvolve :
    (db last : Database)
    → IsSound db.works
    → History db last
    → IsSound last.works × AllEvolve db.works last.works
History-AllEvolve db last s h =
    let (sound, path) = history_path db last s h in
    (sound, WorksEvolve-AllEvolve db.works last.works path s.fits)

abbrev pub ExecutionOutcomeIs : Option Outcome → Option Dispatch → Type 0
ExecutionOutcomeIs o none = Unit
ExecutionOutcomeIs o (some d) = (d.execution.outcome ≡ o) × (d.run.outcome ≡ o)

evolved-Member :
    (us vs : List Work) (u : Work)
    → WorksEvolve us vs
    → All WorkFits us
    → Member u us
    → (v : Work) × Member v vs × Evolves u v
evolved-Member [] vs u p f m = elim m [ ]
evolved-Member (w ∷ ws) [] u p f m = elim p [ ]
evolved-Member (w ∷ ws) (v ∷ vs) u p f (inl e) = (v, inl refl, subst (λ x. Evolves x v) e (p.0 f.0))
evolved-Member (w ∷ ws) (v ∷ vs) u p f (inr m) =
    let (x, later, q) = evolved-Member ws vs u p.1 f.1 m in (x, inr later, q)

closed :
    (j : Job) (o : Option Dispatch)
    → j.phase ≡ JobPhase.terminal
    → RowsFit j o
    → (is_some j.outcome ≡ true) × ExecutionOutcomeIs j.outcome o
closed j none over f = ground arith
closed j (some d) over f = ground arith

-- A job of sound tables that is terminal is still in the tables after every history, terminal,
-- with an outcome, the one that it had, which its run and its execution, if any, share.
pub History_keeps_outcome :
    (db last : Database) (u : Work)
    → IsSound db.works
    → History db last
    → Member u db.works
    → u.job.phase ≡ JobPhase.terminal
    → (v : Work) × Member v last.works
      × (v.job.id ≡ u.job.id)
      × (v.job.phase ≡ JobPhase.terminal)
      × (v.job.outcome ≡ u.job.outcome)
      × (is_some u.job.outcome ≡ true)
      × ExecutionOutcomeIs u.job.outcome v.dispatch
History_keeps_outcome db last u s h m t =
    let (_, path) = history_path db last s h in
    let (v, later, q) = evolved-Member db.works last.works u path s.fits m in
    let over = Evolves-terminal u v q t in
    let (has, same) = closed v.job v.dispatch over q.still_fits in
    (
      v,
      later,
      q.same_id,
      over,
      q.outcome_stays t,
      rw (q.outcome_stays t) at has,
      rw (q.outcome_stays t) at same,
    )
