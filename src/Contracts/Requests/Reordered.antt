-- ===== src/Contracts/Requests/Reordered.antt =====
-- contracts/jobman/v1alpha1/codec.go: the order of a graph's edges does not matter to SealGraphRequest.
use mathlib.Core.List.{Permᴰ}
use mathlib.Core.List.Permᴰ.{nil, cons, swap, trans}
use jobman_control.Contracts.Requests.{
  Child, GraphEdge, GraphRequest, same_ends, validate_graph_request,
}
use jobman_control.Contracts.Requests.Seal.{
  Codec, seal_document, bind_children, digests_of, edge_before, sort_outcomes, normalize_edges,
  normal_graph, seal_graph_request,
}
use jobman_control.Contracts.Workloads.{Host}
use jobman_control.Contracts.Sorting.Reordered.{Comparable, Apart, sort-Perm}
use jobman_control.Prelude.{
  true, false, some, List, [], ◌∷◌, map, str_eq, text_lt, text_lt_trans, text_lt_irrefl, ◌⊎◌,
  text_lt-total, ◌>>=◌, ◌>>◌, ◌≡◌, sym, ap, ◌∙◌, subst, arith, Bool-cases, inl, inr, All, eq_iff,
  eq_refl,
}

-- The order of edges as a relation.
abbrev Before : GraphEdge → GraphEdge → Type 0
Before d e = (text_lt d.from e.from ≡ true) ⊎ ((d.from ≡ e.from) × (text_lt d.to e.to ≡ true))

edge_before-Before : (d e : GraphEdge) → edge_before d e ≡ true → Before d e
edge_before-Before d e h = elim (Bool-cases (str_eq d.from e.from)) [
  | inl same ↦ inr ((eq_iff d.from e.from).0 same, ground (arith, h, same))
  | inr other ↦ inl (ground (arith, h, other))
]

Before-edge_before : (d e : GraphEdge) → Before d e → edge_before d e ≡ true
Before-edge_before d e (inl h) = elim (Bool-cases (str_eq d.from e.from)) [
  | inl same ↦ cc (text_lt_irrefl e.from, h, (eq_iff d.from e.from).0 same)
  | inr other ↦ rw other h
]
Before-edge_before d e (inr (same, h)) = rw ((eq_iff d.from e.from).1 same) h

Before-trans : (d e f : GraphEdge) → Before d e → Before e f → Before d f
Before-trans d e f (inl h) (inl k) = inl (text_lt_trans d.from e.from f.from h k)
Before-trans d e f (inl h) (inr (same, k)) = inl (subst (λ s. text_lt d.from s ≡ true) same h)
Before-trans d e f (inr (same, h)) (inl k) = inl (subst (λ s. text_lt s f.from ≡ true) (sym same) k)
Before-trans d e f (inr (same, h)) (inr (equal, k)) =
    inr (same ∙ equal, text_lt_trans d.to e.to f.to h k)

edge_before_trans :
    (d e f : GraphEdge) → edge_before d e ≡ true → edge_before e f ≡ true → edge_before d f ≡ true
edge_before_trans d e f h k =
    Before-edge_before d f
      (Before-trans d e f (edge_before-Before d e h) (edge_before-Before e f k))

edge_before_irrefl : (d : GraphEdge) → edge_before d d ≡ false
edge_before_irrefl d = rw (eq_refl d.from) (text_lt_irrefl d.to)

edge_before-asym : (d e : GraphEdge) → edge_before d e ≡ true → edge_before e d ≡ false
edge_before-asym d e h = elim (Bool-cases (edge_before e d)) [
  | inl k ↦ cc (edge_before_trans d e d h k, edge_before_irrefl d)
  | inr k ↦ k
]

by_downstream :
    (d e : GraphEdge) → d.from ≡ e.from → same_ends d e ≡ false → Before d e ⊎ Before e d
by_downstream d e same h = elim (Bool-cases (text_lt d.to e.to)) [
  | inl k ↦ inl (inr (same, k))
  | inr n ↦ elim (Bool-cases (text_lt e.to d.to)) [
    | inl k ↦ inr (inr (sym same, k))
    | inr m ↦ ground (
      arith,
      h,
      (eq_iff d.from e.from).1 same,
      (eq_iff d.to e.to).1 (text_lt-total d.to e.to n m),
    )
  ]
]

by_upstream : (d e : GraphEdge) → same_ends d e ≡ false → Before d e ⊎ Before e d
by_upstream d e h = elim (Bool-cases (text_lt d.from e.from)) [
  | inl k ↦ inl (inl k)
  | inr n ↦ elim (Bool-cases (text_lt e.from d.from)) [
    | inl k ↦ inr (inl k)
    | inr m ↦ by_downstream d e (text_lt-total d.from e.from n m) h
  ]
]

abbrev EdgesApart : List GraphEdge → Type 0
EdgesApart = Apart edge_before edge_before-asym edge_before_trans

edges-Comparable :
    (d e : GraphEdge)
    → same_ends d e ≡ false
    → Comparable edge_before edge_before-asym edge_before_trans (sort_outcomes d) (sort_outcomes e)
edges-Comparable d e h = elim (by_upstream d e h) [
  | inl k ↦ inl (Before-edge_before d e k)
  | inr k ↦ inr (Before-edge_before e d k)
]

abbrev pub DifferentEnds : List GraphEdge → Type 0
DifferentEnds [] = Unit
DifferentEnds (e ∷ es) = All (λ d. same_ends e d ≡ false) es × DifferentEnds es

Perm-map : {A B : Type 0} (f : A → B) {xs ys : List A} → Permᴰ xs ys → Permᴰ (map f xs) (map f ys)
Perm-map f nil = nil
Perm-map f (cons e p) = cons (ap f e) (Perm-map f p)
Perm-map f (swap e g) = swap (ap f e) (ap f g)
Perm-map f (trans p q) = trans (Perm-map f p) (Perm-map f q)

all-Comparable :
    (d : GraphEdge) (es : List GraphEdge)
    → All (λ e. same_ends d e ≡ false) es
    → All
        (Comparable edge_before edge_before-asym edge_before_trans (sort_outcomes d))
        (map sort_outcomes es)
all-Comparable d [] h = tt
all-Comparable d (e ∷ es) h = (edges-Comparable d e h.0, all-Comparable d es h.1)

DifferentEnds-Apart : (es : List GraphEdge) → DifferentEnds es → EdgesApart (map sort_outcomes es)
DifferentEnds-Apart [] h = tt
DifferentEnds-Apart (e ∷ es) h = (all-Comparable e es h.0, DifferentEnds-Apart es h.1)

normalize_edges-Perm :
    (es ds : List GraphEdge)
    → Permᴰ es ds
    → DifferentEnds es
    → normalize_edges es ≡ normalize_edges ds
unfolding normalize_edges
normalize_edges-Perm es ds p h =
    sort-Perm edge_before edge_before-asym edge_before_trans (Perm-map sort_outcomes p)
      (DifferentEnds-Apart es h)

-- The request with its edges in another order.
abbrev pub with_edges : GraphRequest → List GraphEdge → GraphRequest
with_edges r edges = record r { edges = edges }

normal_graph-Perm :
    (r : GraphRequest) (edges : List GraphEdge) (nodes : List Child)
    → Permᴰ r.edges edges
    → DifferentEnds r.edges
    → normal_graph r nodes ≡ normal_graph (with_edges r edges) nodes
unfolding normal_graph
normal_graph-Perm r edges nodes p h =
    ap (λ es. record (normal_graph r nodes) { edges = es }) (normalize_edges-Perm r.edges edges p h)

-- SealGraphRequest gives the same result, the same document and digest or the same error, for two
-- requests that list the same edges in different orders, if no two edges join the same nodes and the
-- copies through JSON keep the requests.
pub seal_graph_request-Perm :
    (host : Host) (codec : Codec GraphRequest) (r : GraphRequest) (edges : List GraphEdge)
    → Permᴰ r.edges edges
    → DifferentEnds r.edges
    → codec.clone r ≡ some r
    → codec.clone (with_edges r edges) ≡ some (with_edges r edges)
    → seal_graph_request host codec r ≡ seal_graph_request host codec (with_edges r edges)
unfolding seal_graph_request
seal_graph_request-Perm host codec r edges p h kept kept_too =
    rw (kept, kept_too)
      (ap {A = List Child → GraphRequest}
        (λ f. bind_children host r.nodes >>= λ nodes.
          validate_graph_request host (f nodes)
          >> seal_document host codec (digests_of nodes) (f nodes))
        (λ i nodes. normal_graph-Perm r edges nodes p h i))
