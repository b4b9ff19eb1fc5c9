-- ===== src/Store/Coordinator/Offer.antt =====
-- internal/store/postgres/coordinator.go: reconcileOneAssignment, which offers the first claimable
-- job to its agent, and the loop of ReconcileAssignments.
use jobman_control.Store.Acceptance.{wants_run}
use jobman_control.Store.Database.{
  PolicyRow, GenerationRow, Database, AgentRow, put_work, job_is_accepted,
}
use jobman_control.Store.Rows.{
  Work, Job, AuditEvent, Dispatch, Error, JobPhase, duplicate_key, RunPhase, DesiredState,
  ExecutionPhase, invalid, Confidence, AssignmentState,
}
use jobman_control.Store.Coordinator.{is_claimable, placement, policy_of}
use jobman_control.Store.EventChecks.{is_some}
use jobman_control.Prelude.{
  ℕ, zero, suc, String, Bool, true, false, ◌&&◌, ◌||◌, not, Option, none, some, List, [], ◌∷◌,
  if◌then◌else◌, str_eq, ◌==◌, ltb, Result, ok, err, ◌>>=◌, ◌>>◌, refuse, update_rows,
}
use text.Mathlib.Text.{is_lt}
use Prim.Native.String.{compare}

-- The order of a claim: `last_dispatched_at NULLS FIRST`, then the age of the job.
abbrev pub before_time : Option ℕ → Option ℕ → Bool
before_time none none = false
before_time none (some b) = true
before_time (some a) none = false
before_time (some a) (some b) = ltb a b

abbrev pub same_time : Option ℕ → Option ℕ → Bool
same_time none none = true
same_time none (some b) = false
same_time (some a) none = false
same_time (some a) (some b) = a == b

abbrev pub last_dispatch : Database → Job → Option ℕ
last_dispatch db j = elim (policy_of j db) [ none ↦ none | some p ↦ p.last_dispatched_at ]

unfoldable pub comes_before : Database → Job → Job → Bool
unfolding policy_of
comes_before db j k =
    before_time (last_dispatch db j) (last_dispatch db k)
    || same_time (last_dispatch db j) (last_dispatch db k)
      && (ltb j.created_at k.created_at
          || j.created_at == k.created_at && is_lt (compare j.id k.id))

abbrev pub sooner : (Job → Job → Bool) → Work → Option Work → Work
sooner before w none = w
sooner before w (some v) = if before v.job w.job then v else w

-- `ORDER BY … LIMIT 1` over the rows that a test selects.
unfoldable pub first_work : (Work → Bool) → (Job → Job → Bool) → List Work → Option Work
first_work p before [] = none
first_work p before (w ∷ ws) =
    let rest = first_work p before ws in if p w then some (sooner before w rest) else rest

unfoldable pub claim_assignment_candidate : ℕ → Database → Option Work
unfolding first_work comes_before is_claimable
claim_assignment_candidate now db = first_work (is_claimable now db) (comes_before db) db.works

-- The identifiers drawn for one assignment; the fourth is that of the outbox row.
pub record Identifiers : Type 0 where
  pub run_id : String
  pub execution_id : String
  pub delivery_id : String

-- What the INSERT statements put down. `digest` is of the sealed effective execution.
unfoldable pub planned_dispatch :
    Identifiers → String → ℕ → GenerationRow → AgentRow → Job → Dispatch
planned_dispatch ids digest now g a j = record {
  run = record {
    id = ids.run_id;
    phase = RunPhase.assigning;
    desired_state = DesiredState.run;
    outcome = none;
  };
  execution = record {
    id = ids.execution_id;
    namespace_id = j.namespace_id;
    target_generation_id = j.target_generation_id;
    agent_id = a.id;
    phase = ExecutionPhase.planned;
    created_at = now;
    effective_spec_digest = digest;
    outputs = j.workload.outputs;
    artifact_stores = j.resolved_artifact_stores;
    execution_backend = g.execution_backend;
    log_store = g.log_store;
    revision = 1;
    accepted_at = none;
    last_event_sequence = 0;
    native_id = none;
    native = record {
      backend = none;
      state = none;
      reason = none;
      cluster = none;
      observed_at = none;
    };
    outcome = none;
    process_result = none;
    observation_confidence = Confidence.current;
    events = [];
    artifacts = [];
    streams = [];
    cancel_action = none;
  };
  assignment = record {
    id = ids.delivery_id;
    namespace_id = j.namespace_id;
    agent_id = a.id;
    state = AssignmentState.offered;
    accepted_at = none;
    acceptance_digest = none;
    acceptance_document = none;
  };
}

offered_audit : Identifiers → AuditEvent
offered_audit ids = record {
  actor_kind = "system";
  actor_id = "";
  action = "assignment.offered";
  resource_type = "execution";
  resource_id = ids.execution_id;
  request_digest = "";
}

-- The rows of a job once it is offered.
unfoldable pub offered_work : Identifiers → String → ℕ → GenerationRow → AgentRow → Work → Work
unfolding planned_dispatch offered_audit
offered_work ids digest now g a w = record {
  job = record w.job { phase = JobPhase.assigning; revision = suc w.job.revision };
  dispatch = some (planned_dispatch ids digest now g a w.job);
  audits = offered_audit ids ∷ w.audits;
}

-- The INSERT of a second run is refused by its key, and the UPDATE of a job that is no longer
-- waiting affects no row.
unfoldable pub offer :
    Identifiers → String → ℕ → GenerationRow → AgentRow → Work → Result Error Work
unfolding offered_work
offer ids digest now g a w = do
  refuse (is_some w.dispatch) duplicate_key
  refuse (not (job_is_accepted w.job.phase && wants_run w.job.desired_state)) invalid
  ok (offered_work ids digest now g a w)

touch_policy : ℕ → PolicyRow → PolicyRow
touch_policy now p = record p { last_dispatched_at = some now }

-- The row of the job, and the fairness cursor of its namespace.
unfoldable pub assigned_tables : ℕ → Work → Work → Database → Database
unfolding touch_policy
assigned_tables now w w' db = record db {
  works = put_work w' db.works;
  policies =
      update_rows (λ (p : PolicyRow). str_eq p.namespace_id w.job.namespace_id) (touch_policy now)
        db.policies;
}

-- The rest of the transaction for a claimed job. `seal` is buildAssignmentDocument.
unfoldable pub assign_candidate :
    (Work → GenerationRow → AgentRow → Identifiers → Result Error String)
    → Identifiers
    → ℕ
    → Database
    → Work
    → GenerationRow × AgentRow
    → Result Error Database
unfolding offer assigned_tables
assign_candidate seal ids now db w (g, a) = do
  digest ← seal w g a ids
  w' ← offer ids digest now g a w
  ok (assigned_tables now w w' db)

-- `false` when there is no candidate.
unfoldable pub reconcile_one_assignment :
    (Work → GenerationRow → AgentRow → Identifiers → Result Error String)
    → Identifiers
    → ℕ
    → Database
    → Result Error (Bool × Database)
unfolding assign_candidate claim_assignment_candidate placement
reconcile_one_assignment seal ids now db = elim (claim_assignment_candidate now db) [
  | none ↦ ok (false, db)
  | some w ↦ elim (placement now db w.job) [
    | none ↦ ok (false, db)
    | some p ↦ assign_candidate seal ids now db w p >>= λ done. ok (true, done)
  ]
]

-- The loop of ReconcileAssignments: the number of assignments made, what stopped it, and the
-- tables, which keep the committed transactions on an error. `ids` and `now` give what is drawn for
-- each transaction and when it began, by the number of rounds that may follow it.
unfoldable pub assign_up_to :
    (Work → GenerationRow → AgentRow → Identifiers → Result Error String)
    → (ℕ → Identifiers)
    → (ℕ → ℕ)
    → ℕ
    → Database
    → ℕ × Option Error × Database
unfolding reconcile_one_assignment
assign_up_to seal ids now zero db = (0, none, db)
assign_up_to seal ids now (suc limit) db =
    elim (reconcile_one_assignment seal (ids limit) (now limit) db) [
      | err e ↦ (0, some e, db)
      | ok (false, _) ↦ (0, none, db)
      | ok (true, next) ↦
          let (n, e, last) = assign_up_to seal ids now limit next in (suc n, e, last)
    ]

unfoldable pub reconcile_assignments :
    (Work → GenerationRow → AgentRow → Identifiers → Result Error String)
    → (ℕ → Identifiers)
    → (ℕ → ℕ)
    → ℕ
    → Database
    → ℕ × Option Error × Database
unfolding assign_up_to
reconcile_assignments seal ids now limit db =
    if ltb limit 1 || ltb 1000 limit
    then (0, some invalid, db)
    else assign_up_to seal ids now limit db
