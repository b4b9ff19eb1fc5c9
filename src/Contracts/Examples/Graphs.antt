-- ===== src/Contracts/Examples/Graphs.antt =====
-- Four nodes: a graph that can be ranked and one with a cycle.
use jobman_control.Contracts.Graphs.{Arc, tables_of, graph_contains_cycle}
use jobman_control.Contracts.Graphs.Cycles.{
  Ranking, Reaches, Ranking-Reaches, graph_contains_cycle-Ranking,
}
use jobman_control.Prelude.{
  ℕ, zero, suc, List, [], ◌∷◌, Bool, true, false, some, ◌≡◌, refl, ◌↔◌, arith,
}

abbrev edge : ℕ → ℕ → Arc
edge a b = record { from = a; to = b }

abbrev ranked : List Arc
ranked = edge 0 1 ∷ edge 1 2 ∷ edge 0 2 ∷ edge 3 1 ∷ []

abbrev cyclic_arcs : List Arc
cyclic_arcs = edge 0 1 ∷ edge 1 2 ∷ edge 2 1 ∷ edge 3 1 ∷ []

accepts_ranked :
    graph_contains_cycle (tables_of 4 ranked).adjacency (tables_of 4 ranked).indegree ≡ some false
unfolding graph_contains_cycle tables_of
accepts_ranked = refl

finds_cycle :
    graph_contains_cycle (tables_of 4 cyclic_arcs).adjacency (tables_of 4 cyclic_arcs).indegree
    ≡ some true
unfolding graph_contains_cycle tables_of
finds_cycle = refl

graph_contains_cycle-Ranking_example :
    (cyclic : Bool) × (graph_contains_cycle
        (tables_of 4 ranked).adjacency
        (tables_of 4 ranked).indegree
      ≡ some cyclic)
    × ((cyclic ≡ false) ↔ Ranking ranked)
graph_contains_cycle-Ranking_example = graph_contains_cycle-Ranking 4 ranked (
  (omega arith, omega arith),
  ((omega arith, omega arith), ((omega arith, omega arith), ((omega arith, omega arith), tt))),
)

-- A node's rank: 3 comes before 1.
abbrev turn : ℕ → ℕ
turn zero = 0
turn (suc zero) = 1
turn (suc (suc zero)) = 2
turn (suc (suc (suc n))) = 0

ranked-Ranking : Ranking ranked
ranked-Ranking = (turn, (omega arith, (omega arith, (omega arith, (omega arith, tt)))))

one_is_not_behind_itself : ¬ Reaches ranked 1 1
one_is_not_behind_itself = Ranking-Reaches ranked 1 ranked-Ranking
