-- ===== src/Contracts/Requests/Seal.antt =====
-- contracts/jobman/v1alpha1/codec.go: SealJobRequest, SealCollectionRequest and SealGraphRequest.
use jobman_control.Contracts.Requests.{
  JobRequest, Child, CollectionRequest, GraphEdge, GraphRequest, validate_job_request,
  validate_collection_request, validate_graph_request,
}
use jobman_control.Contracts.Workloads.{Host}
use jobman_control.Contracts.Workloads.Normal.{
  canonical_text, canonical_tokens, default_text, is_zero,
}
use jobman_control.Contracts.Workloads.Seal.{bind_workload, digest_of}
use jobman_control.Contracts.Names.{Reason}
use jobman_control.Contracts.Sorting.{sort}
use jobman_control.Prelude.{
  String, Bool, Option, List, [], ◌∷◌, map, if◌then◌else◌, str_eq, text_lt, ℤ, pos, Result, ok,
  ◌>>=◌, ◌>>◌, or_fail,
}

-- cloneJSON and json.Marshal of a kind of document.
pub record Codec (A : Type 0) : Type 0 where
  pub clone : A → Option A
  pub encode : A → Option String

-- A document, its canonical JSON with its digest (which the source leaves out of an assignment), and the
-- digests of the documents that are sealed in it.
pub record Sealed (A : Type 0) : Type 0 where
  pub document : A
  pub canonical_json : String
  pub digest : String
  pub inner_digests : List String

-- The end of every Seal function, behind its validation.
unfoldable pub seal_document :
    {A : Type 0} → Host → Codec A → List String → A → Result Reason (Sealed A)
unfolding canonical_tokens
seal_document host codec inner_digests document = do
  encoded ← or_fail (codec.encode document) "encode"
  v ← canonical_text host encoded
  ok (record {
    document = document;
    canonical_json = host.marshal v;
    digest = digest_of host (host.marshal v);
    inner_digests = inner_digests;
  })

unfoldable pub seal_job_request :
    Host → Codec JobRequest → JobRequest → Result Reason (Sealed JobRequest)
unfolding bind_workload validate_job_request seal_document
seal_job_request host codec value = do
  cloned ← or_fail (codec.clone value) "clone"
  binding ← bind_workload host cloned.workload
  validate_job_request host (record cloned { workload = binding })
  seal_document host codec (binding.digest ∷ []) (record cloned { workload = binding })

-- The loop over the items of a collection and the nodes of a graph.
unfoldable pub bind_children : Host → List Child → Result Reason (List Child)
unfolding bind_workload
bind_children host [] = ok []
bind_children host (child ∷ children) = bind_workload host child.workload >>= λ binding.
    bind_children host children >>= λ others. ok (record child { workload = binding } ∷ others)

abbrev pub digests_of : List Child → List String
digests_of = map (λ child. child.workload.digest)

abbrev pub default_active : ℤ → ℤ
default_active n = if is_zero n then pos 1 else n

abbrev pub normal_collection : CollectionRequest → List Child → CollectionRequest
normal_collection r items = record r {
  items = items;
  max_active = default_active r.max_active;
  failure_policy = default_text "continue" r.failure_policy;
  array_policy = default_text "prefer" r.array_policy;
}

unfoldable pub seal_collection_request :
    Host → Codec CollectionRequest → CollectionRequest → Result Reason (Sealed CollectionRequest)
unfolding bind_children validate_collection_request seal_document
seal_collection_request host codec value = do
  cloned ← or_fail (codec.clone value) "clone"
  items ← bind_children host cloned.items
  validate_collection_request host (normal_collection cloned items)
  seal_document host codec (digests_of items) (normal_collection cloned items)

-- The order of edges: by the upstream node, then by the downstream one.
abbrev pub edge_before : GraphEdge → GraphEdge → Bool
edge_before d e = if str_eq d.from e.from then text_lt d.to e.to else text_lt d.from e.from

abbrev pub sort_outcomes : GraphEdge → GraphEdge
sort_outcomes e = record e { outcomes = sort text_lt e.outcomes }

unfoldable pub normalize_edges : List GraphEdge → List GraphEdge
normalize_edges edges = sort edge_before (map sort_outcomes edges)

unfoldable pub normal_graph : GraphRequest → List Child → GraphRequest
unfolding normalize_edges
normal_graph r nodes = record r {
  nodes = nodes;
  edges = normalize_edges r.edges;
  max_active = default_active r.max_active;
  unsatisfied_policy = default_text "skip" r.unsatisfied_policy;
}

unfoldable pub seal_graph_request :
    Host → Codec GraphRequest → GraphRequest → Result Reason (Sealed GraphRequest)
unfolding bind_children normal_graph validate_graph_request seal_document
seal_graph_request host codec value = do
  cloned ← or_fail (codec.clone value) "clone"
  nodes ← bind_children host cloned.nodes
  validate_graph_request host (normal_graph cloned nodes)
  seal_document host codec (digests_of nodes) (normal_graph cloned nodes)
