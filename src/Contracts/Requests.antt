-- ===== src/Contracts/Requests.antt =====
-- contracts/jobman/v1alpha1: requests for a job, a collection of jobs and a graph of jobs (types.go,
-- validate.go, codec.go). What a request holds in its spec is kept in the request itself.
pub mod Acyclic
pub mod Seal
pub mod Reordered
use jobman_control.Contracts.Workloads.{Host}
use jobman_control.Contracts.Workloads.Seal.{WorkloadBinding, validate_workload_binding}
use jobman_control.Contracts.Workloads.Parts.{has_text, if_text}
use jobman_control.Contracts.Names.{Reason, validate_name, validate_string_map}
use jobman_control.Contracts.Graphs.{Arc, Tables, replicate, add_arc, graph_contains_cycle}
use jobman_control.Prelude.{
  ℕ, ◌+◌, String, Bool, true, false, ◌&&◌, ◌||◌, not, Option, none, some, List, [], ◌∷◌,
  if◌then◌else◌, str_eq, ◌==◌, ltb, leb, length, any, ℤ, pos, negsuc, Result, ok, ◌>>=◌, ◌>>◌,
  refuse, or_fail,
}

pub record Placement : Type 0 where
  pub target : String
  pub partition : String

pub record RequestMetadata : Type 0 where
  pub namespace : String
  pub name : String
  pub labels : List (String × String)

pub record JobRequest : Type 0 where
  pub api_version : String
  pub kind : String
  pub metadata : RequestMetadata
  pub workload : WorkloadBinding
  pub placement : Placement

-- An item of a collection and a node of a graph.
pub record Child : Type 0 where
  pub name : String
  pub workload : WorkloadBinding
  pub placement : Placement

pub record CollectionRequest : Type 0 where
  pub api_version : String
  pub kind : String
  pub metadata : RequestMetadata
  pub items : List Child
  pub max_active : ℤ
  pub failure_policy : String
  pub array_policy : String

pub record GraphEdge : Type 0 where
  pub from : String
  pub to : String
  pub predicate : String
  pub outcomes : List String

pub record GraphRequest : Type 0 where
  pub api_version : String
  pub kind : String
  pub metadata : RequestMetadata
  pub nodes : List Child
  pub edges : List GraphEdge
  pub max_active : ℤ
  pub unsatisfied_policy : String

unfoldable pub validate_metadata : RequestMetadata → Result Reason (Unit {0})
unfolding validate_name validate_string_map
validate_metadata m = do
  validate_name m.namespace
  validate_name m.name
  validate_string_map m.labels 128

unfoldable pub validate_placement : Placement → Result Reason (Unit {0})
unfolding validate_name
validate_placement p = do validate_name p.target; if_text validate_name p.partition

unfoldable pub validate_job_request : Host → JobRequest → Result Reason (Unit {0})
unfolding validate_metadata validate_workload_binding validate_placement
validate_job_request host r = do
  refuse (not (str_eq r.api_version "jobman/v1alpha1")) "unsupported API version"
  refuse (not (str_eq r.kind "JobRequest")) "unsupported kind"
  validate_metadata r.metadata
  validate_workload_binding host r.workload
  validate_placement r.placement

-- The request for a child, in the namespace of its parent.
abbrev pub child_request : String → Child → JobRequest
child_request namespace child = record {
  api_version = "jobman/v1alpha1";
  kind = "JobRequest";
  metadata = record { namespace = namespace; name = child.name; labels = [] };
  workload = child.workload;
  placement = child.placement;
}

-- The loop over the items of a collection, and validateGraphNodes: the names, those seen first.
unfoldable pub validate_children :
    Host → String → List String → List Child → Result Reason (Unit {0})
unfolding validate_name validate_job_request
validate_children host namespace seen [] = ok tt
validate_children host namespace seen (child ∷ children) =
    validate_name child.name
    >> refuse (has_text child.name seen) "is duplicated"
    >> validate_job_request host (child_request namespace child)
    >> validate_children host namespace (child.name ∷ seen) children

-- Between 1 and a number of children.
abbrev pub is_active_bound : ℤ → ℕ → Bool
is_active_bound (pos n) count = leb 1 n && leb n count
is_active_bound (negsuc n) count = false

unfoldable pub validate_collection_request : Host → CollectionRequest → Result Reason (Unit {0})
unfolding validate_metadata validate_children
validate_collection_request host r = do
  refuse (not (str_eq r.api_version "jobman/v1alpha1") || not (str_eq r.kind "CollectionRequest"))
      "unsupported API version or kind"
  validate_metadata r.metadata
  refuse (length r.items == 0 || ltb 10000 (length r.items)) "item count is out of bounds"
  refuse (not (is_active_bound r.max_active (length r.items))) "maxActive is out of bounds"
  refuse (not (has_text r.failure_policy ("continue" ∷ "fail-fast" ∷ [])))
      "failure policy is unsupported"
  refuse (not (has_text r.array_policy ("never" ∷ "prefer" ∷ "require" ∷ [])))
      "array policy is unsupported"
  validate_children host r.metadata.namespace [] r.items

unfoldable pub validate_graph_request_header : GraphRequest → Result Reason (Unit {0})
unfolding validate_metadata
validate_graph_request_header r = do
  refuse (not (str_eq r.api_version "jobman/v1alpha1") || not (str_eq r.kind "GraphRequest"))
      "unsupported API version or kind"
  validate_metadata r.metadata
  refuse (length r.nodes == 0 || ltb 10000 (length r.nodes)) "node count is out of bounds"
  refuse (ltb 100000 (length r.edges)) "edge count is out of bounds"
  refuse (not (is_active_bound r.max_active (length r.nodes))) "maxActive is out of bounds"
  refuse (not (has_text r.unsatisfied_policy ("skip" ∷ "cancel" ∷ "blocked" ∷ [])))
      "unsatisfied policy is unsupported"

-- The map from a node's name to its index.
unfoldable pub index_of : String → ℕ → List Child → Option ℕ
index_of name index [] = none
index_of name index (child ∷ children) =
    let rest = index_of name (index + 1) children in
    if str_eq child.name name then some index else rest

abbrev pub valid_graph_predicate : String → Bool
valid_graph_predicate p = has_text p ("success" ∷ "failure" ∷ "any-terminal" ∷ "outcomes" ∷ [])

abbrev pub valid_graph_outcome : String → Bool
valid_graph_outcome o =
    has_text o ("success" ∷ "failure" ∷ "cancelled" ∷ "timed_out" ∷ "aborted" ∷ "lost" ∷ [])

-- Each outcome valid and not the one before it.
unfoldable pub valid_outcomes : List String → Bool
valid_outcomes [] = true
valid_outcomes (o ∷ []) = valid_graph_outcome o
valid_outcomes (o ∷ p ∷ ps) = valid_graph_outcome o && not (str_eq o p) && valid_outcomes (p ∷ ps)

unfoldable pub validate_graph_edge_outcomes : GraphEdge → Result Reason (Unit {0})
unfolding valid_outcomes
validate_graph_edge_outcomes e = do
  refuse (not (str_eq e.predicate "outcomes") && not (length e.outcomes == 0))
      "outcomes require the outcomes predicate"
  refuse (str_eq e.predicate "outcomes" && (length e.outcomes == 0 || ltb 6 (length e.outcomes)))
      "selected outcomes are invalid"
  refuse (not (valid_outcomes e.outcomes)) "selected outcomes are invalid"

abbrev pub same_ends : GraphEdge → GraphEdge → Bool
same_ends d e = str_eq d.from e.from && str_eq d.to e.to

-- An edge is known by its ends: the source joins their names by a NUL, which no name has.
unfoldable pub validate_graph_edge : List Child → List GraphEdge → GraphEdge → Result Reason Arc
unfolding index_of validate_graph_edge_outcomes
validate_graph_edge nodes seen e = do
  from ← or_fail (index_of e.from 0 nodes) "edge contains an invalid node reference"
  to ← or_fail (index_of e.to 0 nodes) "edge contains an invalid node reference"
  refuse (from == to) "edge contains an invalid node reference"
  refuse (any (same_ends e) seen) "duplicate edge"
  refuse (not (valid_graph_predicate e.predicate)) "edge predicate is unsupported"
  validate_graph_edge_outcomes e
  ok (record { from = from; to = to })

unfoldable pub validate_edges_from :
    List Child → List GraphEdge → Tables → List GraphEdge → Result Reason Tables
unfolding validate_graph_edge add_arc
validate_edges_from nodes seen t [] = ok t
validate_edges_from nodes seen t (e ∷ es) = validate_graph_edge nodes seen e >>= λ arc.
    validate_edges_from nodes (e ∷ seen) (add_arc t arc) es

unfoldable pub validate_graph_edges : List GraphEdge → List Child → ℕ → Result Reason Tables
unfolding validate_edges_from
validate_graph_edges edges nodes node_count =
    validate_edges_from nodes []
      (record { adjacency = replicate node_count []; indegree = replicate node_count 0 }) edges

unfoldable pub validate_graph_request : Host → GraphRequest → Result Reason (Unit {0})
unfolding validate_graph_request_header validate_children validate_graph_edges graph_contains_cycle
validate_graph_request host r = do
  validate_graph_request_header r
  validate_children host r.metadata.namespace [] r.nodes
  t ← validate_graph_edges r.edges r.nodes (length r.nodes)
  cyclic ← or_fail (graph_contains_cycle t.adjacency t.indegree) "out of fuel, of the model alone"
  refuse cyclic "dependency cycle detected"
