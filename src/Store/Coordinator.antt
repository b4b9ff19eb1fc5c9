-- ===== src/Store/Coordinator.antt =====
-- internal/store/postgres/coordinator.go: the query that claims a job for an agent, and the rows
-- that the claim inserts. Rows that another transaction has locked (SKIP LOCKED) are not modelled:
-- the coordinator runs alone here. `now` is transaction_timestamp() in seconds.
pub mod Offer
pub mod Limits
pub mod Claims
pub mod Made
pub mod Loop
pub mod Fairness
pub mod Within
use text.Mathlib.Text.{is_lt}
use Prim.Native.String.{compare}
use jobman_control.Store.EventChecks.{is_some}
use jobman_control.Store.Acceptance.{wants_run}
use jobman_control.Store.Collections.{in_collection}
use jobman_control.Store.Graphs.{satisfies, leads_to}
use jobman_control.Store.Database.{
  CollectionRow, ArrayMode, AgentRow, SessionRow, Database, EdgeRow, find_job, GenerationRow,
  PolicyRow, job_is_accepted, TargetRow, GraphRow, job_is_terminal,
}
use jobman_control.Store.Rows.{Job, Work, ExecutionBackend, Execution}
use jobman_control.Prelude.{
  ℕ, suc, ◌+◌, String, Bool, true, false, ◌&&◌, ◌||◌, not, Option, none, some, List, [], ◌∷◌,
  if◌then◌else◌, str_eq, ◌==◌, ltb, any, all, find?,
}

abbrev contains : List String → String → Bool
contains xs x = any (str_eq x) xs

backend_text : ExecutionBackend → String
backend_text ExecutionBackend.subprocess = "subprocess"
backend_text ExecutionBackend.slurm = "slurm"

abbrev is_slurm_array : ArrayMode → Bool
is_slurm_array ArrayMode.slurm_array = true
is_slurm_array ArrayMode.individual = false

abbrev has_live_session : ℕ → List SessionRow → Bool
has_live_session now ss = any (λ (s : SessionRow). not s.is_revoked && ltb now s.expires_at) ss

reported_recently : ℕ → Option ℕ → Bool
reported_recently now none = false
reported_recently now (some at) = ltb now (at + 600)

-- An empty list of requirements accepts every agent.
allows : List String → String → Bool
allows [] x = true
allows (y ∷ ys) x = contains (y ∷ ys) x

earliest : Execution → Option Execution → Execution
earliest e none = e
earliest e (some f) =
    if ltb f.created_at e.created_at || f.created_at == e.created_at && is_lt (compare f.id e.id)
    then f
    else e

-- The first execution of a collection, whose agent the whole Slurm array keeps.
unfoldable pub first_execution : String → List Work → Option Execution
unfolding earliest
first_execution c [] = none
first_execution c (w ∷ ws) =
    let rest = first_execution c ws in
    if in_collection c w
    then elim w.dispatch [ none ↦ rest | some d ↦ some (earliest d.execution rest) ]
    else rest

array_allows : Option CollectionRow → List Work → AgentRow → Bool
unfolding first_execution
array_allows none ws a = true
array_allows (some c) ws a =
    if is_slurm_array c.array_mode
    then elim (first_execution c.id ws) [ none ↦ true | some e ↦ str_eq a.id e.agent_id ]
    else true

-- The lateral join with agents.
unfoldable pub agent_serves :
    ℕ → GenerationRow → Option CollectionRow → List Work → Job → AgentRow → Bool
unfolding backend_text reported_recently allows array_allows
agent_serves now generation c ws j a =
    str_eq a.namespace_id j.namespace_id
    && str_eq a.target_id j.target_id
    && str_eq a.target_generation_id j.target_generation_id
    && str_eq a.principal_id j.owner_principal_id
    && a.is_active
    && a.accepting_assignments
    && reported_recently now a.last_capability_at
    && contains a.execution_backends (backend_text generation.execution_backend)
    && contains a.runtimes j.workload.runtime_kind
    && allows j.workload.operating_systems a.operating_system
    && allows j.workload.architectures a.architecture
    && all (contains a.capabilities) j.workload.capabilities
    && has_live_session now a.sessions
    && array_allows c ws a

older_agent : AgentRow → Option AgentRow → AgentRow
older_agent a none = a
older_agent a (some b) =
    if ltb b.created_at a.created_at || b.created_at == a.created_at && is_lt (compare b.id a.id)
    then b
    else a

-- `ORDER BY created_at, id LIMIT 1`
unfoldable pub first_agent : (AgentRow → Bool) → List AgentRow → Option AgentRow
unfolding older_agent
first_agent p [] = none
first_agent p (a ∷ rest) =
    let later = first_agent p rest in if p a then some (older_agent a later) else later

abbrev pub job_is_active : Job → Bool
job_is_active j = not (job_is_accepted j.phase) && not (job_is_terminal j.phase)

-- `count(*) … phase NOT IN ('accepted', 'terminal')` over the rows that a test selects.
abbrev pub active_count : (Job → Bool) → List Work → ℕ
active_count p [] = 0
active_count p (w ∷ ws) =
    if p w.job && job_is_active w.job then suc (active_count p ws) else active_count p ws

abbrev pub of_namespace : String → Job → Bool
of_namespace n j = str_eq j.namespace_id n

abbrev pub of_collection : String → Job → Bool
of_collection c j = elim j.collection_id [ none ↦ false | some id ↦ str_eq id c ]

abbrev pub of_graph : String → Job → Bool
of_graph g j = elim j.graph_id [ none ↦ false | some id ↦ str_eq id g ]

-- Each upstream job is over and satisfies its edge; a null test holds a node back.
unfoldable pub upstream_holds : List Work → EdgeRow → Bool
unfolding find_job satisfies
upstream_holds ws edge = elim (find_job edge.upstream_job_id ws) [
  | none ↦ false
  | some u ↦ not (job_is_terminal u.job.phase) || elim u.job.outcome [
    | none ↦ false
    | some o ↦ not (satisfies edge.predicate edge.outcomes o)
  ]
]

unfoldable pub is_ready : List EdgeRow → List Work → Job → Bool
unfolding upstream_holds
is_ready edges ws j = not (any (λ edge. leads_to j.id edge && upstream_holds ws edge) edges)

unfoldable pub collection_row : Job → Database → Option CollectionRow
collection_row j db = elim j.collection_id [
  | none ↦ none
  | some c ↦ find? (λ (row : CollectionRow). str_eq row.id c) db.collections
]

unfoldable pub collection_admits : Job → Database → Bool
unfolding collection_row
collection_admits j db = elim j.collection_id [
  | none ↦ true
  | some id ↦ elim (collection_row j db) [
    | none ↦ false
    | some c ↦
        is_slurm_array c.array_mode || ltb (active_count (of_collection id) db.works) c.max_active
  ]
]

unfoldable pub graph_row : Job → Database → Option GraphRow
graph_row j db = elim j.graph_id [
  | none ↦ none
  | some g ↦ find? (λ (row : GraphRow). str_eq row.id g) db.graphs
]

unfoldable pub graph_admits : Job → Database → Bool
unfolding is_ready graph_row
graph_admits j db = elim j.graph_id [
  | none ↦ true
  | some id ↦ elim (graph_row j db) [
    | none ↦ false
    | some g ↦
        ltb (active_count (of_graph id) db.works) g.max_active && is_ready db.edges db.works j
  ]
]

unfoldable pub policy_of : Job → Database → Option PolicyRow
policy_of j db = find? (λ (p : PolicyRow). str_eq p.namespace_id j.namespace_id) db.policies

unfoldable pub namespace_admits : Job → Database → Bool
unfolding policy_of
namespace_admits j db = elim (policy_of j db) [
  | none ↦ false
  | some p ↦ ltb (active_count (of_namespace j.namespace_id) db.works) p.max_active_jobs
]

target_admits : Job → Database → Bool
target_admits j db = any (λ (t : TargetRow). str_eq t.id j.target_id && t.is_active) db.targets

generation_of : Job → Database → Option GenerationRow
generation_of j db =
    find? (λ (g : GenerationRow). str_eq g.id j.target_generation_id) db.generations

-- The generation and the agent that the joins give a job, if any.
unfoldable pub placement : ℕ → Database → Job → Option (GenerationRow × AgentRow)
unfolding generation_of agent_serves first_agent collection_row
placement now db j = elim (generation_of j db) [
  | none ↦ none
  | some g ↦ elim (first_agent (agent_serves now g (collection_row j db) db.works j) db.agents) [
    | none ↦ none
    | some a ↦ some (g, a)
  ]
]

-- The WHERE clause, for a job that the joins place.
unfoldable pub is_claimable : ℕ → Database → Work → Bool
unfolding namespace_admits collection_admits graph_admits target_admits placement
is_claimable now db w =
    not db.reconciliation_hold
    && job_is_accepted w.job.phase
    && wants_run w.job.desired_state
    && target_admits w.job db
    && is_some (placement now db w.job)
    && namespace_admits w.job db
    && collection_admits w.job db
    && graph_admits w.job db
