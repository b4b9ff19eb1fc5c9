-- ===== src/Store/Transactions.antt =====
-- The transactions of internal/store/postgres over the tables: AcceptAssignment,
-- RecordExecutionEvent, CancelJob and the insertion of an assignment by the coordinator. An error
-- rolls the transaction back, so only a success carries tables. `now` is transaction_timestamp(),
-- `new_id` is store.newID.
pub mod Evolves
pub mod Safety
pub mod Stops
use jobman_control.Store.Collections.{apply_collection_completion}
use jobman_control.Store.Graphs.{apply_graph_completion}
use jobman_control.Store.Acceptance.{accept_assignment, wants_run}
use jobman_control.Store.Database.{Database, job_is_terminal, put_work}
use jobman_control.Store.Rows.{
  Work, Job, Outcome, Dispatch, EventRow, AgentIdentity, Error, Acceptance, ExecutionObservation,
  not_found, LaunchAuthorization, out_of_fuel, idempotency_conflict, forbidden,
}
use jobman_control.Store.EventChecks.{completes}
use jobman_control.Store.Events.{record_event}
use jobman_control.Store.Idempotency.{
  Key, Reserved, replayed, complete_idempotency, reserve_idempotency,
}
use jobman_control.Store.Cancellation.{cancel_work}
use jobman_control.Prelude.{
  ℕ, String, Bool, false, ◌&&◌, ◌||◌, not, Option, none, some, List, if◌then◌else◌, str_eq, Result,
  ok, err, ◌>>=◌, ◌>>◌, refuse, or_fail, any, find?,
}

abbrev dispatched : (Dispatch → Bool) → Work → Bool
dispatched p w = elim w.dispatch [ none ↦ false | some d ↦ p d ]

-- The joins that start from an assignment, and from an execution.
unfoldable pub has_assignment : String → String → Work → Bool
has_assignment id namespace_id =
    dispatched (λ d. str_eq d.assignment.id id && str_eq d.assignment.namespace_id namespace_id)

unfoldable pub has_execution : String → String → Work → Bool
has_execution id namespace_id =
    dispatched (λ d. str_eq d.execution.id id && str_eq d.execution.namespace_id namespace_id)

unfoldable pub accept_assignment_transaction :
    AgentIdentity → Acceptance → ℕ → Database → Result Error (LaunchAuthorization × Database)
unfolding accept_assignment has_assignment
accept_assignment_transaction identity a now db = do
  w ← or_fail (find? (has_assignment a.delivery_id identity.namespace_id) db.works) not_found
  d ← or_fail w.dispatch not_found
  (launch, w') ← accept_assignment identity a now w d
  ok (launch, record db { works = put_work w' db.works })

-- An event of another execution under the same identity.
event_is_taken : String → String → Work → Bool
event_is_taken id execution_id = dispatched (λ d.
    not (str_eq d.execution.id execution_id)
    && any (λ (e : EventRow). str_eq e.event_id id) d.execution.events)

-- What follows a completion: the collection, then the graph.
unfoldable pub complete_groups :
    (String → String) → String → String → Option Outcome → Database → Result Error Database
complete_groups new_id namespace_id id outcome db =
    or_fail
      (apply_graph_completion namespace_id id
        (apply_collection_completion new_id namespace_id id outcome db))
      out_of_fuel

-- What a new event leaves to do.
after_event :
    (String → String)
    → AgentIdentity
    → ExecutionObservation
    → String
    → Bool
    → Database
    → Result Error (Bool × Database)
unfolding complete_groups completes
after_event new_id identity event id again db =
    if not again && completes event.event_type
    then (complete_groups new_id identity.namespace_id id event.outcome db >>= λ done.
        ok (again, done))
    else ok (again, db)

unfoldable pub record_execution_event :
    (String → String)
    → AgentIdentity
    → ExecutionObservation
    → Database
    → Result Error (Bool × Database)
unfolding record_event event_is_taken has_execution after_event
record_execution_event new_id identity event db = do
  w ← or_fail (find? (has_execution event.execution_id identity.namespace_id) db.works) not_found
  d ← or_fail w.dispatch not_found
  (again, j', d') ←
      record_event identity event (any (event_is_taken event.event_id event.execution_id) db.works)
        w.job d
  after_event new_id identity event w.job.id again
      (record db { works = put_work (record w { job = j'; dispatch = some d' }) db.works })

-- namespaceAuthorization
pub record Authorization : Type 0 where
  pub principal_id : String
  pub namespace_id : String
  pub capabilities : List String

unfoldable pub permits : Authorization → String → Bool
permits authorization capability = any (str_eq capability) authorization.capabilities

-- The owner may cancel, and who may cancel any job.
unfoldable pub may_cancel : Authorization → Job → Bool
unfolding permits
may_cancel authorization j =
    str_eq j.owner_principal_id authorization.principal_id
    || permits authorization "jobs.cancel.any"

cancel_key : Authorization → String → Key
cancel_key authorization key = record {
  namespace_id = authorization.namespace_id;
  principal_id = authorization.principal_id;
  operation = "jobs.cancel";
  idempotency_key = key;
}

abbrev pub is_over_or_cancelled : Job → Bool
is_over_or_cancelled j = job_is_terminal j.phase || not (wants_run j.desired_state)

-- A job that is over, or that is asked to stop already, is answered as it is.
cancel_again : Authorization → String → Work → Database → Result Error (Job × Database)
unfolding cancel_key
cancel_again authorization key w db = do
  rs ← complete_idempotency (cancel_key authorization key) w.job.id 200 db.reservations
  ok (w.job, record db { reservations = rs })

-- A job that the cancellation closed may close nodes of its graph.
after_cancel : Authorization → Work → Database → Result Error (Job × Database)
after_cancel authorization w db =
    if job_is_terminal w.job.phase
    then (or_fail (apply_graph_completion authorization.namespace_id w.job.id db) out_of_fuel
        >>= λ done. ok (w.job, done))
    else ok (w.job, db)

cancel_now :
    (String → String) → Authorization → String → Work → Database → Result Error (Job × Database)
unfolding cancel_work cancel_key after_cancel
cancel_now new_id authorization key w db = do
  let w' = cancel_work (new_id w.job.id) w
  rs ← complete_idempotency (cancel_key authorization key) w.job.id 200 db.reservations
  after_cancel authorization w' (record db { works = put_work w' db.works; reservations = rs })

-- The rest of CancelJob once the key is reserved.
unfoldable pub cancel_reserved :
    (String → String) → Authorization → String → Work → Database → Result Error (Job × Database)
unfolding cancel_again cancel_now
cancel_reserved new_id authorization key w db =
    if is_over_or_cancelled w.job
    then cancel_again authorization key w db
    else cancel_now new_id authorization key w db

cancel_answer :
    (String → String)
    → Authorization
    → String
    → Work
    → Database
    → Reserved
    → Result Error (Job × Database)
unfolding cancel_reserved
cancel_answer new_id authorization key w db (replayed id) =
    if str_eq id w.job.id then ok (w.job, db) else err idempotency_conflict
cancel_answer new_id authorization key w db Reserved.fresh =
    cancel_reserved new_id authorization key w db

unfoldable pub cancel_job :
    (String → String)
    → Authorization
    → String
    → String
    → String
    → Database
    → Result Error (Job × Database)
unfolding cancel_answer may_cancel cancel_key
cancel_job new_id authorization id key digest db = do
  w ←
      or_fail
        (find? (λ w. str_eq w.job.id id && str_eq w.job.namespace_id authorization.namespace_id)
          db.works)
        not_found
  refuse (not (may_cancel authorization w.job)) forbidden
  (reserved, rs) ←
      reserve_idempotency (cancel_key authorization key) digest "job" 200 db.reservations
  cancel_answer new_id authorization key w (record db { reservations = rs }) reserved
