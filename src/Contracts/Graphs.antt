-- ===== src/Contracts/Graphs.antt =====
-- contracts/jobman/v1alpha1/validate.go: graphContainsCycle, on the tables that
-- validateGraphEdges fills.
pub mod Degrees
pub mod Walks
pub mod Starts
pub mod Orders
pub mod Cycles
use jobman_control.Prelude.{
  ℕ, zero, suc, ◌+◌, Bool, not, Option, none, some, List, [], ◌∷◌, ◌++◌, ◌==◌, length,
  if◌then◌else◌,
}

-- A slice read at an index; an index out of range does not arise.
abbrev pub get_or {ℓ} : {A : Type ℓ} → List A → ℕ → A → A
get_or [] i d = d
get_or (x ∷ xs) zero d = x
get_or (x ∷ xs) (suc i) d = get_or xs i d

abbrev pub set {ℓ} : {A : Type ℓ} → List A → ℕ → A → List A
set [] i v = []
set (x ∷ xs) zero v = v ∷ xs
set (x ∷ xs) (suc i) v = x ∷ set xs i v

abbrev pub replicate {ℓ} : {A : Type ℓ} → ℕ → A → List A
replicate zero v = []
replicate (suc n) v = v ∷ replicate n v

-- An edge by the indices of its nodes.
pub record Arc : Type 0 where
  pub from : ℕ
  pub to : ℕ

pub record Tables : Type 0 where
  pub adjacency : List (List ℕ)
  pub indegree : List ℕ

-- One round of the loop of validateGraphEdges, once the edge is valid.
unfoldable pub add_arc : Tables → Arc → Tables
add_arc t arc = record {
  adjacency = set t.adjacency arc.from (get_or t.adjacency arc.from [] ++ arc.to ∷ []);
  indegree = set t.indegree arc.to (get_or t.indegree arc.to 0 + 1);
}

unfoldable pub add_arcs : Tables → List Arc → Tables
unfolding add_arc
add_arcs t [] = t
add_arcs t (arc ∷ arcs) = add_arcs (add_arc t arc) arcs

unfoldable pub tables_of : ℕ → List Arc → Tables
unfolding add_arcs
tables_of node_count arcs =
    add_arcs (record { adjacency = replicate node_count []; indegree = replicate node_count 0 })
      arcs

-- The loop's variables. The stack's top is the head of the list.
pub record Walk : Type 0 where
  pub ready : List ℕ
  pub indegree : List ℕ

-- `indegree[downstream]--`, and the push of a node whose degree has come to zero. A degree that would
-- fall below zero is kept at zero: the source never pushes such a node either.
unfoldable pub release : Walk → ℕ → Walk
release w node = elim (get_or w.indegree node 0) [
  | zero ↦ w
  | suc zero ↦ record { ready = node ∷ w.ready; indegree = set w.indegree node 0 }
  | suc (suc d) ↦ record w { indegree = set w.indegree node (suc d) }
]

unfoldable pub release_all : Walk → List ℕ → Walk
unfolding release
release_all w [] = w
release_all w (node ∷ nodes) = release_all (release w node) nodes

-- The nodes of degree zero, as the first loop pushes them.
unfoldable pub push_ready : ℕ → List ℕ → List ℕ → List ℕ
push_ready index [] ready = ready
push_ready index (d ∷ ds) ready =
    push_ready (index + 1) ds (if d == 0 then index ∷ ready else ready)

-- The main loop on fuel; `none` when the fuel runs out.
unfoldable pub count_visited : ℕ → List (List ℕ) → ℕ → Walk → Option ℕ
unfolding release_all
count_visited zero adjacency visited w = none
count_visited (suc fuel) adjacency visited w = elim w.ready [
  | [] ↦ some visited
  | node ∷ rest ↦
      count_visited fuel adjacency (visited + 1)
        (release_all (record w { ready = rest }) (get_or adjacency node []))
]

-- Every round visits another node.
unfoldable pub graph_contains_cycle : List (List ℕ) → List ℕ → Option Bool
unfolding count_visited push_ready
graph_contains_cycle adjacency indegree =
    elim (count_visited (length indegree + 1) adjacency 0
      (record { ready = push_ready 0 indegree []; indegree = indegree })) [
        | none ↦ none
        | some visited ↦ some (not (visited == length indegree))
      ]
