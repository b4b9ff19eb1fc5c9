-- ===== src/Contracts/Graphs/Cycles.antt =====
-- contracts/jobman/v1alpha1/validate.go: graphContainsCycle accepts the acyclic graphs and no other.
use jobman_control.Contracts.Graphs.{
  Arc, push_ready, tables_of, graph_contains_cycle, count_visited,
}
use jobman_control.Contracts.Graphs.Degrees.{
  open_in, InRange, none_seen, adjacency-tables_of, length-tables_of,
}
use jobman_control.Contracts.Graphs.Starts.{starts-Fits}
use jobman_control.Contracts.Graphs.Orders.{
  Ends, count_visited-Ends, none_seen-Ranked, all_counted, count_all,
}
use jobman_control.Prelude.{
  ℕ, zero, suc, ◌+◌, ◌<◌, Bool, true, false, not, some, List, [], ◌∷◌, ◌==◌, length, ◌≡◌, refl, sym,
  ap, ◌∙◌, All, arith, subst, ◌↔◌, Member, All_of_Member,
}

-- A numbering of the nodes along which every edge climbs.
abbrev pub Ranking : List Arc → Type 0
Ranking arcs = (rank : ℕ → ℕ) × All (λ a. rank a.from < rank a.to) arcs

-- A walk along one edge or more.
pub data Reaches (arcs : List Arc) (u : ℕ) : ℕ → Type 0 where
  by_edge : (a : Arc) → Member a arcs → a.from ≡ u → Reaches arcs u a.to
  and_edge : {v : ℕ} (a : Arc) → Reaches arcs u v → Member a arcs → a.from ≡ v → Reaches arcs u a.to

climbs_along :
    (arcs : List Arc) (rank : ℕ → ℕ) (u v : ℕ)
    → All (λ a. rank a.from < rank a.to) arcs
    → Reaches arcs u v
    → rank u < rank v
climbs_along arcs rank u _ c (by_edge a m e) =
    subst (λ w. rank w < rank a.to) e (All_of_Member (λ a. rank a.from < rank a.to) arcs a c m)
climbs_along arcs rank u _ c (and_edge {v} a walk m e) = omega (
  arith,
  climbs_along arcs rank u v c walk,
  All_of_Member (λ a. rank a.from < rank a.to) arcs a c m,
  ap rank e,
)

-- No node of a ranked graph reaches itself.
pub Ranking-Reaches : (arcs : List Arc) (u : ℕ) → Ranking arcs → ¬ Reaches arcs u u
Ranking-Reaches arcs u (rank, c) walk = omega (arith, climbs_along arcs rank u u c walk)

same_rank : (rank : ℕ → ℕ) (u v : ℕ) → u ≡ v → rank u ≡ rank v
same_rank rank u v e = ap rank e

all_climb :
    (n : ℕ) (seen : ℕ → Bool) (rank : ℕ → ℕ) (arcs : List Arc)
    → ((v : ℕ) → v < n → seen v ≡ true)
    → All (InRange n) arcs
    → All (λ a. seen a.to ≡ true → (seen a.from ≡ true) × (rank a.from < rank a.to)) arcs
    → All (λ a. rank a.from < rank a.to) arcs
all_climb n seen rank [] h i c = tt
all_climb n seen rank (a ∷ arcs) h i c =
    ((c.0 (h a.to i.0.1)).1, all_climb n seen rank arcs h i.1 c.1)

-- Where the sources of a node's edges are visited, its degree is zero.
open_in_visited :
    (n : ℕ) (seen : ℕ → Bool) (rank : ℕ → ℕ) (k v : ℕ) (arcs : List Arc)
    → ((u : ℕ) → rank u < k → u < n → seen u ≡ true)
    → rank v < suc k
    → All (λ a. rank a.from < rank a.to) arcs
    → All (InRange n) arcs
    → open_in seen v arcs ≡ 0
open_in_visited n seen rank k v [] ih h c i = refl
open_in_visited n seen rank k v (a ∷ arcs) ih h c i =
    ground (arith, ih a.from, same_rank rank a.to v, open_in_visited n seen rank k v arcs ih)

module _ (n : ℕ) (arcs : List Arc) (inside : All (InRange n) arcs) where
  walked : Ends n arcs (
      count_visited
        (length (tables_of n arcs).indegree + 1)
        (tables_of n arcs).adjacency
        0
        (record {
          ready = push_ready 0 (tables_of n arcs).indegree [];
          indegree = (tables_of n arcs).indegree;
        }))
  walked =
      count_visited-Ends n arcs (tables_of n arcs).adjacency inside
        (λ x. adjacency-tables_of n arcs x inside) (length (tables_of n arcs).indegree + 1) 0
        none_seen (λ v. v) (push_ready 0 (tables_of n arcs).indegree []) (tables_of n arcs).indegree
        (omega (arith, length-tables_of n arcs)) (starts-Fits n arcs inside)
        (none_seen-Ranked n arcs)

  -- When all nodes are visited, their turns rank the graph.
  ranked_by_turns : walked.visited ≡ n → Ranking arcs
  ranked_by_turns h = (
    walked.rank,
    all_climb n walked.seen walked.rank arcs
        (λ v lt. all_counted n walked.seen v (sym walked.ranked.counted ∙ h) lt) inside
        walked.ranked.climbs,
  )

  -- In a ranked graph every node is visited, those of lower rank first.
  visits_ranked :
      (rank : ℕ → ℕ)
      → All (λ a. rank a.from < rank a.to) arcs
      → (k v : ℕ) → rank v < k
      → v < n
      → walked.seen v ≡ true
  visits_ranked rank c zero v h lt = elim h [ ]
  visits_ranked rank c (suc k) v h lt = ground (
    arith,
    walked.fits.settled v lt,
    walked.fits.degrees v lt,
    open_in_visited n walked.seen rank k v arcs (λ u. visits_ranked rank c k u) h c inside,
  )

  visits_all : Ranking arcs → walked.visited ≡ n
  visits_all (rank, c) =
      walked.ranked.counted
      ∙ count_all n walked.seen (λ v lt. visits_ranked rank c (suc (rank v)) v (omega arith) lt)

  size : length (tables_of n arcs).indegree ≡ n
  size = length-tables_of n arcs

  -- graphContainsCycle ends on every graph whose edges are among its nodes, and it reports no cycle
  -- exactly when the nodes can be numbered so that every edge climbs.
  pub graph_contains_cycle-Ranking :
      (cyclic : Bool) × (graph_contains_cycle
          (tables_of n arcs).adjacency
          (tables_of n arcs).indegree
        ≡ some cyclic)
      × ((cyclic ≡ false) ↔ Ranking arcs)
  unfolding graph_contains_cycle
  graph_contains_cycle-Ranking = (
    not (walked.visited == length (tables_of n arcs).indegree),
    rw (walked.returns, graph_contains_cycle),
    ((λ h. ranked_by_turns (ground (arith, size))), (λ r. ground (arith, size, visits_all r))),
  )
