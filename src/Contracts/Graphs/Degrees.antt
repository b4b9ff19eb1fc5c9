-- ===== src/Contracts/Graphs/Degrees.antt =====
-- contracts/jobman/v1alpha1/validate.go: what the tables of validateGraphEdges hold.
use jobman_control.Contracts.Graphs.{
  get_or, set, replicate, Arc, Tables, add_arc, add_arcs, tables_of,
}
use mathlib.Core.List.{append-nil, append_assoc}
use jobman_control.Prelude.{
  ℕ, zero, suc, ◌+◌, ◌<◌, Bool, false, not, ◌&&◌, List, [], ◌∷◌, ◌++◌, ◌==◌, length, if◌then◌else◌,
  ◌≡◌, refl, sym, ap, ◌∙◌, All, arith,
}

module _ {ℓ} {A : Type ℓ} where
  pub get_or-set :
      (xs : List A) (i j : ℕ) (v d : A)
      → i < length xs
      → get_or (set xs i v) j d ≡ (if i == j then v else get_or xs j d)
  get_or-set [] i j v d h = elim h [ ]
  get_or-set (x ∷ xs) zero zero v d h = refl
  get_or-set (x ∷ xs) zero (suc j) v d h = ground arith
  get_or-set (x ∷ xs) (suc i) zero v d h = ground arith
  get_or-set (x ∷ xs) (suc i) (suc j) v d h = ground (arith, get_or-set xs i j v d)

  pub length-set : (xs : List A) (i : ℕ) (v : A) → length (set xs i v) ≡ length xs
  length-set [] i v = refl
  length-set (x ∷ xs) zero v = refl
  length-set (x ∷ xs) (suc i) v = ap suc (length-set xs i v)

  pub length-replicate : (n : ℕ) (v : A) → length (replicate n v) ≡ n
  length-replicate zero v = refl
  length-replicate (suc n) v = ap suc (length-replicate n v)

  pub get_or-replicate : (n i : ℕ) (v : A) → get_or (replicate n v) i v ≡ v
  get_or-replicate zero i v = refl
  get_or-replicate (suc n) zero v = refl
  get_or-replicate (suc n) (suc i) v = get_or-replicate n i v

-- The edges into a node whose source is not in a set.
abbrev pub open_in : (ℕ → Bool) → ℕ → List Arc → ℕ
open_in seen v [] = 0
open_in seen v (arc ∷ arcs) =
    (if arc.to == v && not (seen arc.from) then 1 else 0) + open_in seen v arcs

-- The targets of a node's edges, in their order.
abbrev pub targets : ℕ → List Arc → List ℕ
targets x [] = []
targets x (arc ∷ arcs) = (if arc.from == x then arc.to ∷ [] else []) ++ targets x arcs

abbrev pub occurrences : ℕ → List ℕ → ℕ
occurrences v [] = 0
occurrences v (t ∷ ts) = (if t == v then 1 else 0) + occurrences v ts

abbrev pub InRange : ℕ → Arc → Type 0
InRange n arc = (arc.from < n) × (arc.to < n)

abbrev pub none_seen : ℕ → Bool
none_seen v = false

module _ (n : ℕ) where
  add_arcs-sizes :
      (t : Tables) (arcs : List Arc) → length t.indegree ≡ n → length (add_arcs t arcs).indegree ≡ n
  unfolding add_arcs
  add_arcs-sizes t [] h = h
  add_arcs-sizes t (arc ∷ arcs) h =
      add_arcs-sizes (add_arc t arc) arcs
        (length-set t.indegree arc.to (get_or t.indegree arc.to 0 + 1) ∙ h)

  add_arcs-indegree :
      (t : Tables) (arcs : List Arc) (v : ℕ)
      → length t.indegree ≡ n
      → All (InRange n) arcs
      → get_or (add_arcs t arcs).indegree v 0 ≡ get_or t.indegree v 0 + open_in none_seen v arcs
  unfolding add_arcs
  add_arcs-indegree t [] v h r = omega arith
  add_arcs-indegree t (arc ∷ arcs) v h r = ground (
    arith,
    length-set t.indegree arc.to (get_or t.indegree arc.to 0 + 1),
    get_or-set t.indegree arc.to v (get_or t.indegree arc.to 0 + 1) 0,
    add_arcs-indegree (add_arc t arc) arcs v,
  )

  add_arcs-adjacency :
      (t : Tables) (arcs : List Arc) (x : ℕ)
      → length t.adjacency ≡ n
      → All (InRange n) arcs
      → get_or (add_arcs t arcs).adjacency x [] ≡ get_or t.adjacency x [] ++ targets x arcs
  unfolding add_arcs
  add_arcs-adjacency t [] x h r = sym (append-nil (get_or t.adjacency x []))
  add_arcs-adjacency t (arc ∷ arcs) x h r = ground (
    arith,
    length-set t.adjacency arc.from (get_or t.adjacency arc.from [] ++ arc.to ∷ []),
    get_or-set t.adjacency arc.from x (get_or t.adjacency arc.from [] ++ arc.to ∷ []) [],
    append_assoc (get_or t.adjacency x []) (arc.to ∷ []) (targets x arcs),
    add_arcs-adjacency (add_arc t arc) arcs x,
  )

  pub indegree-tables_of :
      (arcs : List Arc) (v : ℕ)
      → All (InRange n) arcs
      → get_or (tables_of n arcs).indegree v 0 ≡ open_in none_seen v arcs
  unfolding tables_of
  indegree-tables_of arcs v r =
      add_arcs-indegree (record { adjacency = replicate n []; indegree = replicate n 0 }) arcs v
        (length-replicate n 0) r
      ∙ ap (λ k. k + open_in none_seen v arcs) (get_or-replicate n v 0)
      ∙ omega arith

  pub adjacency-tables_of :
      (arcs : List Arc) (x : ℕ)
      → All (InRange n) arcs
      → get_or (tables_of n arcs).adjacency x [] ≡ targets x arcs
  unfolding tables_of
  adjacency-tables_of arcs x r =
      add_arcs-adjacency (record { adjacency = replicate n []; indegree = replicate n 0 }) arcs x
        (length-replicate n []) r
      ∙ ap (λ l. l ++ targets x arcs) (get_or-replicate n x [])

  pub length-tables_of : (arcs : List Arc) → length (tables_of n arcs).indegree ≡ n
  unfolding tables_of
  length-tables_of arcs =
      add_arcs-sizes (record { adjacency = replicate n []; indegree = replicate n 0 }) arcs
        (length-replicate n 0)
