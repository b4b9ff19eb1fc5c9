-- ===== src/Store/Graphs.antt =====
-- internal/store/postgres/graphs.go: the readiness predicates of a dependency graph and
-- applyGraphCompletion, which closes the nodes that can no longer run.
pub mod Resolution
use jobman_control.Store.Database.{
  Predicate, GraphRow, EdgeRow, UnsatisfiedPolicy, find_job, Database, job_is_accepted, put_work,
  job_is_terminal,
}
use jobman_control.Store.Rows.{Outcome, Work, AuditEvent, JobPhase, DesiredState}
use jobman_control.Prelude.{
  ℕ, zero, suc, String, Bool, true, false, ◌&&◌, not, Option, none, some, List, [], ◌∷◌,
  if◌then◌else◌, str_eq, ltb, length, any, find?, update_rows,
}

-- `upstream.outcome = ANY(edge.outcomes)`
abbrev pub outcome_eq : Outcome → Outcome → Bool
outcome_eq Outcome.success Outcome.success = true
outcome_eq Outcome.failure Outcome.failure = true
outcome_eq Outcome.cancelled Outcome.cancelled = true
outcome_eq Outcome.timed_out Outcome.timed_out = true
outcome_eq Outcome.aborted Outcome.aborted = true
outcome_eq Outcome.lost Outcome.lost = true
outcome_eq _ _ = false

-- The predicate of an edge on the outcome of its upstream job.
unfoldable pub satisfies : Predicate → List Outcome → Outcome → Bool
satisfies Predicate.any_terminal os o = true
satisfies Predicate.success os Outcome.success = true
satisfies Predicate.success os _ = false
satisfies Predicate.failure os Outcome.failure = true
satisfies Predicate.failure os Outcome.timed_out = true
satisfies Predicate.failure os Outcome.aborted = true
satisfies Predicate.failure os Outcome.lost = true
satisfies Predicate.failure os _ = false
satisfies Predicate.outcomes os o = any (outcome_eq o) os

-- `NOT (…)` under a WHERE: a null outcome makes the test null, which selects nothing.
unfoldable pub is_unsatisfied : EdgeRow → Option Outcome → Bool
unfolding satisfies
is_unsatisfied edge none = false
is_unsatisfied edge (some o) = not (satisfies edge.predicate edge.outcomes o)

abbrev pub leads_to : String → EdgeRow → Bool
leads_to id edge = str_eq edge.downstream_job_id id

-- The joins of an edge with its upstream job.
unfoldable pub upstream_is_open : List Work → EdgeRow → Bool
unfolding find_job
upstream_is_open ws edge = elim (find_job edge.upstream_job_id ws) [
  | none ↦ false
  | some u ↦ not (job_is_terminal u.job.phase)
]

unfoldable pub upstream_fails : List Work → EdgeRow → Bool
unfolding find_job is_unsatisfied
upstream_fails ws edge = elim (find_job edge.upstream_job_id ws) [
  | none ↦ false
  | some u ↦ is_unsatisfied edge u.job.outcome
]

abbrev pub in_graph : String → Work → Bool
in_graph g w = elim w.job.graph_id [ none ↦ false | some id ↦ str_eq id g ]

-- A node that waits, whose upstream jobs are all over, and one of which does not satisfy its edge.
unfoldable pub is_candidate : String → List EdgeRow → List Work → Work → Bool
unfolding upstream_is_open upstream_fails
is_candidate g edges ws w =
    in_graph g w
    && job_is_accepted w.job.phase
    && any (leads_to w.job.id) edges
    && not (any (λ edge. leads_to w.job.id edge && upstream_is_open ws edge) edges)
    && any (λ edge. leads_to w.job.id edge && upstream_fails ws edge) edges

earlier : Work → Option Work → Work
earlier w none = w
earlier w (some v) = if ltb v.job.graph_index w.job.graph_index then v else w

-- `ORDER BY candidate.graph_index LIMIT 1`
unfoldable pub first_by_index : (Work → Bool) → List Work → Option Work
unfolding earlier
first_by_index p [] = none
first_by_index p (w ∷ ws) =
    let rest = first_by_index p ws in if p w then some (earlier w rest) else rest

disposition_of : UnsatisfiedPolicy → String
disposition_of UnsatisfiedPolicy.skip = "skipped"
disposition_of UnsatisfiedPolicy.cancel = "cancelled"
disposition_of UnsatisfiedPolicy.blocked = "blocked"

outcome_of : UnsatisfiedPolicy → Outcome
outcome_of UnsatisfiedPolicy.cancel = Outcome.cancelled
outcome_of _ = Outcome.aborted

desire_of : UnsatisfiedPolicy → DesiredState
desire_of UnsatisfiedPolicy.cancel = DesiredState.cancel
desire_of _ = DesiredState.run

unsatisfied_audit : Work → AuditEvent
unsatisfied_audit w = record {
  actor_kind = "system";
  actor_id = "";
  action = "graph.node.unsatisfied";
  resource_type = "job";
  resource_id = w.job.id;
  request_digest = "";
}

-- The update and the audit of one candidate.
unfoldable pub terminalize : UnsatisfiedPolicy → Work → Work
unfolding disposition_of outcome_of desire_of unsatisfied_audit
terminalize policy w = record w {
  job = record w.job {
    phase = JobPhase.terminal;
    desired_state = desire_of policy;
    outcome = some (outcome_of policy);
    graph_disposition = some (disposition_of policy);
    revision = suc w.job.revision;
  };
  audits = unsatisfied_audit w ∷ w.audits;
}

-- The loop, with fuel; `none` means that the fuel ran out.
unfoldable pub resolve :
    ℕ → String → UnsatisfiedPolicy → List EdgeRow → List Work → Option (List Work)
resolve zero g policy edges ws = none
resolve (suc fuel) g policy edges ws = elim (first_by_index (is_candidate g edges ws) ws) [
  | none ↦ some ws
  | some w ↦ resolve fuel g policy edges (put_work (terminalize policy w) ws)
]

-- Each round closes a waiting job, so one more round than there are jobs is enough.
unfoldable pub apply_graph_completion_works :
    String → UnsatisfiedPolicy → List EdgeRow → List Work → Option (List Work)
unfolding resolve
apply_graph_completion_works g policy edges ws = resolve (suc (length ws)) g policy edges ws

bump_graph : GraphRow → GraphRow
bump_graph g = record g { revision = suc g.revision }

-- The graph of the completed job, if it has one in that namespace.
unfoldable pub graph_of : String → String → Database → Option GraphRow
unfolding find_job
graph_of namespace_id id db = elim (find_job id db.works) [
  | none ↦ none
  | some w ↦ elim w.job.graph_id [
    | none ↦ none
    | some g ↦
        if str_eq w.job.namespace_id namespace_id
        then find? (λ (row : GraphRow). str_eq row.id g) db.graphs
        else none
  ]
]

-- The works after the loop, and the graph's own row.
unfoldable pub store_graph : GraphRow → List Work → Database → Database
unfolding bump_graph
store_graph g ws db = record db {
  works = ws;
  graphs = update_rows (λ (row : GraphRow). str_eq row.id g.id) bump_graph db.graphs;
}

unfoldable pub apply_graph_completion : String → String → Database → Option Database
unfolding apply_graph_completion_works store_graph graph_of
apply_graph_completion namespace_id id db = elim (graph_of namespace_id id db) [
  | none ↦ some db
  | some g ↦ elim (apply_graph_completion_works g.id g.unsatisfied_policy db.edges db.works) [
    | none ↦ none
    | some ws ↦ some (store_graph g ws db)
  ]
]
