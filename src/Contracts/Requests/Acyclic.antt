-- ===== src/Contracts/Requests/Acyclic.antt =====
-- contracts/jobman/v1alpha1/validate.go: ValidateGraphRequest accepts acyclic graphs only.
use jobman_control.Contracts.Requests.{
  Child, GraphEdge, GraphRequest, same_ends, index_of, valid_graph_predicate,
  validate_graph_request_header, validate_children, validate_graph_edge_outcomes,
  validate_graph_edge, validate_edges_from, validate_graph_edges, validate_graph_request,
}
use jobman_control.Contracts.Workloads.{Host}
use jobman_control.Contracts.Names.{Reason}
use jobman_control.Contracts.Graphs.{
  Arc, Tables, add_arc, add_arcs, tables_of, graph_contains_cycle,
}
use jobman_control.Contracts.Graphs.Degrees.{InRange}
use jobman_control.Contracts.Graphs.Cycles.{graph_contains_cycle-Ranking}
use jobman_control.Prelude.{
  ℕ, zero, suc, ◌+◌, ◌<◌, ◌≤◌, String, Bool, true, false, not, Option, none, some, List, [], ◌∷◌,
  str_eq, ◌==◌, length, any, Result, ok, ◌>>=◌, refuse, or_fail, >>=-eq-ok, ok-injective, found_of,
  ◌≡◌, refl, sym, ap, ◌∙◌, All, arith, subst, Bool-cases, inl, inr, ◌↔◌, eq_iff,
}

-- A numbering of the nodes' names along which every edge climbs: no chain of edges leads from a node
-- back to itself.
abbrev pub Acyclic : List GraphEdge → Type 0
Acyclic edges = (rank : String → ℕ) × All (λ e. rank e.from < rank e.to) edges

-- The indices of an edge's ends.
abbrev pub IsArcOf : List Child → GraphEdge → Arc → Type 0
IsArcOf nodes e arc =
    (index_of e.from 0 nodes ≡ some arc.from) × (index_of e.to 0 nodes ≡ some arc.to)

abbrev pub AreArcsOf : List Child → List GraphEdge → List Arc → Type 0
AreArcsOf nodes [] [] = Unit
AreArcsOf nodes [] (a ∷ others) = ⊥
AreArcsOf nodes (e ∷ es) [] = ⊥
AreArcsOf nodes (e ∷ es) (a ∷ others) = IsArcOf nodes e a × AreArcsOf nodes es others

validate_graph_edge-IsArcOf :
    (nodes : List Child) (seen : List GraphEdge) (e : GraphEdge) (arc : Arc)
    → validate_graph_edge nodes seen e ≡ ok arc
    → IsArcOf nodes e arc
unfolding validate_graph_edge
validate_graph_edge-IsArcOf nodes seen e arc h =
    let (from, found, h1) =
      >>=-eq-ok (or_fail (index_of e.from 0 nodes) "edge contains an invalid node reference") _ h in
    let (to, reached, h2) =
      >>=-eq-ok (or_fail (index_of e.to 0 nodes) "edge contains an invalid node reference") _ h1 in
    let (_, _, h3) =
      >>=-eq-ok (refuse (from == to) "edge contains an invalid node reference") _ h2 in
    let (_, _, h4) = >>=-eq-ok (refuse (any (same_ends e) seen) "duplicate edge") _ h3 in
    let (_, _, h5) =
      >>=-eq-ok (refuse (not (valid_graph_predicate e.predicate)) "edge predicate is unsupported") _
        h4 in
    let (_, _, h6) = >>=-eq-ok (validate_graph_edge_outcomes e) _ h5 in
    subst (IsArcOf nodes e) (ok-injective (record { from = from; to = to }) arc h6) (
      found_of (index_of e.from 0 nodes) "edge contains an invalid node reference" from found,
      found_of (index_of e.to 0 nodes) "edge contains an invalid node reference" to reached,
    )

-- The tables are those of the edges' indices.
validate_edges_from-AreArcsOf :
    (nodes : List Child) (seen edges : List GraphEdge) (t last : Tables)
    → validate_edges_from nodes seen t edges ≡ ok last
    → (arcs : List Arc) × AreArcsOf nodes edges arcs × (last ≡ add_arcs t arcs)
unfolding validate_edges_from add_arcs
validate_edges_from-AreArcsOf nodes seen [] t last h = ([], tt, sym (ok-injective t last h))
validate_edges_from-AreArcsOf nodes seen (e ∷ es) t last h =
    let (arc, first, after) = >>=-eq-ok (validate_graph_edge nodes seen e) _ h in
    let (arcs, are, last_is) =
      validate_edges_from-AreArcsOf nodes (e ∷ seen) es (add_arc t arc) last after in
    (arc ∷ arcs, (validate_graph_edge-IsArcOf nodes seen e arc first, are), last_is)

index_of_bound :
    (name : String) (index : ℕ) (nodes : List Child) (i : ℕ)
    → index_of name index nodes ≡ some i
    → (index ≤ i) × (i < index + length nodes)
unfolding index_of
index_of_bound name index [] i h = ground (arith, h)
index_of_bound name index (c ∷ cs) i h = ground (arith, h, index_of_bound name (index + 1) cs i)

-- The name at an index.
abbrev name_at : ℕ → List Child → String
name_at i [] = ""
name_at zero (c ∷ cs) = c.name
name_at (suc i) (c ∷ cs) = name_at i cs

name_at-index_of :
    (name : String) (index : ℕ) (nodes : List Child) (i k : ℕ)
    → index_of name index nodes ≡ some i
    → i ≡ index + k
    → name_at k nodes ≡ name
unfolding index_of
name_at-index_of name index [] i k h e = ground (arith, h)
name_at-index_of name index (c ∷ cs) i zero h e = elim (Bool-cases (str_eq c.name name)) [
  | inl same ↦ (eq_iff c.name name).0 same
  | inr other ↦ ground (arith, h, other, index_of_bound name (index + 1) cs i)
]
name_at-index_of name index (c ∷ cs) i (suc k) h e = elim (Bool-cases (str_eq c.name name)) [
  | inl same ↦ ground (arith, h, same)
  | inr other ↦ name_at-index_of name (index + 1) cs i k (ground (arith, h, other)) (omega arith)
]

AreArcsOf-InRange :
    (nodes : List Child) (edges : List GraphEdge) (arcs : List Arc)
    → AreArcsOf nodes edges arcs
    → All (InRange (length nodes)) arcs
AreArcsOf-InRange nodes [] [] are = tt
AreArcsOf-InRange nodes [] (a ∷ others) are = elim are [ ]
AreArcsOf-InRange nodes (e ∷ es) [] are = elim are [ ]
AreArcsOf-InRange nodes (e ∷ es) (a ∷ others) are = (
  (
    omega (arith, index_of_bound e.from 0 nodes a.from are.0.0),
    omega (arith, index_of_bound e.to 0 nodes a.to are.0.1),
  ),
  AreArcsOf-InRange nodes es others are.1,
)

abbrev rank_at : (ℕ → ℕ) → Option ℕ → ℕ
rank_at rank none = 0
rank_at rank (some i) = rank i

-- A node's rank by its name.
abbrev rank_by_name : List Child → (ℕ → ℕ) → String → ℕ
rank_by_name nodes rank name = rank_at rank (index_of name 0 nodes)

climbs_by_name :
    (nodes : List Child) (edges : List GraphEdge) (arcs : List Arc) (rank : ℕ → ℕ)
    → AreArcsOf nodes edges arcs
    → All (λ a. rank a.from < rank a.to) arcs
    → All (λ e. rank_by_name nodes rank e.from < rank_by_name nodes rank e.to) edges
climbs_by_name nodes [] arcs rank are c = tt
climbs_by_name nodes (e ∷ es) [] rank are c = elim are [ ]
climbs_by_name nodes (e ∷ es) (a ∷ others) rank are c = (
  subst (λ n. n < rank_at rank (index_of e.to 0 nodes)) (ap (rank_at rank) (sym are.0.0))
      (subst (λ n. rank a.from < n) (ap (rank_at rank) (sym are.0.1)) c.0),
  climbs_by_name nodes es others rank are.1 c.1,
)

climbs_by_index :
    (nodes : List Child) (edges : List GraphEdge) (arcs : List Arc) (rank : String → ℕ)
    → AreArcsOf nodes edges arcs
    → All (λ e. rank e.from < rank e.to) edges
    → All (λ a. rank (name_at a.from nodes) < rank (name_at a.to nodes)) arcs
climbs_by_index nodes [] [] rank are c = tt
climbs_by_index nodes [] (a ∷ others) rank are c = elim are [ ]
climbs_by_index nodes (e ∷ es) [] rank are c = elim are [ ]
climbs_by_index nodes (e ∷ es) (a ∷ others) rank are c = (
  rw
      (
        name_at-index_of e.from 0 nodes a.from a.from are.0.0 (omega arith),
        name_at-index_of e.to 0 nodes a.to a.to are.0.1 (omega arith),
      )
      c.0,
  climbs_by_index nodes es others rank are.1 c.1,
)

-- The tables that validateGraphEdges makes are those of arcs that can be ranked exactly if the names can.
validate_graph_edges-tables_of :
    (edges : List GraphEdge) (nodes : List Child) (t : Tables)
    → validate_graph_edges edges nodes (length nodes) ≡ ok t
    → (arcs : List Arc) × AreArcsOf nodes edges arcs × (t ≡ tables_of (length nodes) arcs)
unfolding validate_graph_edges tables_of
validate_graph_edges-tables_of edges nodes t h = validate_edges_from-AreArcsOf nodes [] edges _ t h

-- The end of ValidateGraphRequest on tables of arcs.
abbrev refuse_cycle : Option Bool → Result Reason (Unit {0})
refuse_cycle o = or_fail o "out of fuel, of the model alone" >>= λ cyclic.
    refuse cyclic "dependency cycle detected"

refuse_cycle_iff :
    (o : Option Bool) (cyclic : Bool)
    → o ≡ some cyclic
    → (refuse_cycle o ≡ ok tt) ↔ (cyclic ≡ false)
refuse_cycle_iff o true e = ((λ h. ground (arith, e, h)), (λ h. cc))
refuse_cycle_iff o false e = ((λ h. refl), (λ h. ap refuse_cycle e))

refuse_cycle-Acyclic :
    (edges : List GraphEdge) (nodes : List Child) (t : Tables)
    → validate_graph_edges edges nodes (length nodes) ≡ ok t
    → (refuse_cycle (graph_contains_cycle t.adjacency t.indegree) ≡ ok tt) ↔ Acyclic edges
refuse_cycle-Acyclic edges nodes t h =
    let (arcs, are, t_is) = validate_graph_edges-tables_of edges nodes t h in
    let (cyclic, returns, ranks) =
      graph_contains_cycle-Ranking (length nodes) arcs (AreArcsOf-InRange nodes edges arcs are) in
    let decides =
      refuse_cycle_iff _ cyclic
        (ap (λ u. graph_contains_cycle u.adjacency u.indegree) t_is ∙ returns) in
    (
      (λ accepted.
          let (rank, c) = ranks.0 (decides.0 accepted) in
          (rank_by_name nodes rank, climbs_by_name nodes edges arcs rank are c)),
      (λ (rank, c).
          decides.1
            (ranks.1 ((λ i. rank (name_at i nodes)), climbs_by_index nodes edges arcs rank are c))),
    )

-- ValidateGraphRequest accepts a request exactly when its header, its nodes and its edges one by one
-- are valid, and the nodes' names can be numbered so that every edge climbs: no chain of edges leads
-- from a node back to itself.
pub validate_graph_request-Acyclic :
    (host : Host) (r : GraphRequest)
    → (validate_graph_request host r ≡ ok tt) ↔ (
        (validate_graph_request_header r ≡ ok tt)
        × (validate_children host r.metadata.namespace [] r.nodes ≡ ok tt)
        × ((t : Tables) × (validate_graph_edges r.edges r.nodes (length r.nodes) ≡ ok t))
        × Acyclic r.edges)
unfolding validate_graph_request
validate_graph_request-Acyclic host r = (
  (λ h.
      let (_, header, h1) = >>=-eq-ok (validate_graph_request_header r) _ h in
      let (_, children, h2) =
        >>=-eq-ok (validate_children host r.metadata.namespace [] r.nodes) _ h1 in
      let (t, edges, h3) = >>=-eq-ok (validate_graph_edges r.edges r.nodes (length r.nodes)) _ h2 in
      (header, children, (t, edges), (refuse_cycle-Acyclic r.edges r.nodes t edges).0 h3)),
  (λ (header, children, (t, edges), acyclic).
      rw (header, children, edges) ((refuse_cycle-Acyclic r.edges r.nodes t edges).1 acyclic)),
)
