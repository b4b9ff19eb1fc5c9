-- ===== src/Contracts/Examples/Requests.antt =====
-- A workload that is normalized and sealed, and a graph of two such jobs.
use jobman_control.Contracts.Workloads.Normal.{canonical_tokens, normalize_workload}
use jobman_control.Contracts.Workloads.Idempotent.{ReadsBack, normalize_workload_again}
use jobman_control.Contracts.Workloads.Valid.{validate_artifacts}
use jobman_control.Contracts.Workloads.Distinct.{Distinct, Fresh, validate_artifacts-Distinct}
use jobman_control.Contracts.Workloads.Seal.{seal_workload}
use jobman_control.Contracts.Workloads.Resealed.{Copied, seal_workload_again}
use jobman_control.Contracts.Requests.{
  validate_graph_request_header, validate_children, validate_graph_edges, validate_graph_request,
}
use jobman_control.Contracts.Requests.Seal.{seal_graph_request}
use jobman_control.Contracts.Requests.Reordered.{with_edges, seal_graph_request-Perm}
use mathlib.Core.List.Permᴰ.{swap}
use jobman_control.Contracts.Requests.Acyclic.{Acyclic, validate_graph_request-Acyclic}
use jobman_control.Contracts.Graphs.{Tables}
use jobman_control.Contracts.Sorting.{sort}
use jobman_control.Contracts.Json.{open_object, close_object, object, no_members, canonical_value}
use jobman_control.Contracts.Json.Sound.{IsToken}
use jobman_control.Contracts.Json.Writing.{write}
use jobman_control.Prelude.{
  ◌+◌, ◌≤◌, [], ◌∷◌, map, length, Option, some, ok, err, ◌≡◌, refl, All, subst, ap, ok-injective,
}
use jobman_control.Contracts.Examples.Fixtures.{
  fork, plain, host, artifacts, sent, normal, sealed, after, graph, chain,
}

accepts_artifacts : validate_artifacts host artifacts ≡ ok tt
unfolding validate_artifacts
accepts_artifacts = refl

validate_artifacts-Distinct_example :
    Distinct (map (λ i. i.name) artifacts.inputs)
    × Distinct (map (λ o. o.name) artifacts.outputs)
    × Fresh (map (λ i. i.name) artifacts.inputs) (map (λ o. o.name) artifacts.outputs)
    × (length artifacts.inputs + length artifacts.outputs ≤ 4096)
validate_artifacts-Distinct_example = validate_artifacts-Distinct host artifacts accepts_artifacts

normalizes : normalize_workload host sent ≡ ok normal
unfolding normalize_workload canonical_value sort
normalizes = refl

of_some : {A : Type 0} (a b : A) → ◌≡◌ {A = Option A} (some a) (some b) → a ≡ b
of_some a b h = cc

extensions_ReadsBack : All (ReadsBack host) sent.spec.extensions
unfolding canonical_tokens canonical_value
extensions_ReadsBack = (
  (
    (λ ts h. subst (All IsToken) (of_some (open_object ∷ close_object ∷ []) ts h) (tt, (tt, tt))),
    (λ v h. ap (λ u. some (write u [])) (ok-injective (object no_members) v h)),
  ),
  tt,
)

normalize_workload_again_example : normalize_workload host normal ≡ ok normal
normalize_workload_again_example =
    normalize_workload_again host sent normal extensions_ReadsBack normalizes

seals : seal_workload host sent ≡ ok sealed
unfolding seal_workload canonical_value sort
seals = refl

sent-Copied : Copied host sent
sent-Copied copy h =
    subst (λ w. All (ReadsBack host) w.spec.extensions) (of_some sent copy h) extensions_ReadsBack

seal_workload_again_example : seal_workload host normal ≡ ok sealed
seal_workload_again_example = seal_workload_again host sent sealed sent-Copied refl seals

accepts_chain : validate_graph_request host (graph chain) ≡ ok tt
unfolding validate_graph_request canonical_value sort
accepts_chain = refl

refuses_circle :
    validate_graph_request host (graph (after "test" "build" ∷ chain))
    ≡ err "dependency cycle detected"
unfolding validate_graph_request canonical_value sort
refuses_circle = refl

validate_graph_request-Acyclic_example :
    (validate_graph_request_header (graph chain) ≡ ok tt)
    × (validate_children host "team" [] (graph chain).nodes ≡ ok tt)
    × ((t : Tables) × (validate_graph_edges chain (graph chain).nodes 3 ≡ ok t))
    × Acyclic chain
validate_graph_request-Acyclic_example =
    (validate_graph_request-Acyclic host (graph chain)).0 accepts_chain

seal_graph_request-Perm_example :
    seal_graph_request host plain (graph fork)
    ≡ seal_graph_request host plain
        (with_edges (graph fork) (after "build" "deploy" ∷ after "build" "test" ∷ []))
seal_graph_request-Perm_example =
    seal_graph_request-Perm host plain (graph fork)
      (after "build" "deploy" ∷ after "build" "test" ∷ []) (swap refl refl) ((refl, tt), (tt, tt))
      refl refl
