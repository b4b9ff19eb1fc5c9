-- ===== src/Contracts/Graphs/Starts.antt =====
-- contracts/jobman/v1alpha1/validate.go: the first loop of graphContainsCycle, which pushes the nodes
-- of degree zero.
use jobman_control.Contracts.Graphs.{get_or, Arc, push_ready, tables_of}
use jobman_control.Contracts.Graphs.Degrees.{
  InRange, none_seen, indegree-tables_of, length-tables_of,
}
use jobman_control.Contracts.Graphs.Walks.{Fits, Distinct, holds}
use jobman_control.Prelude.{
  ℕ, zero, suc, ◌+◌, ◌<◌, ◌≤◌, false, ◌||◌, List, [], ◌∷◌, ◌==◌, length, if◌then◌else◌, ◌≡◌, refl,
  ◌∙◌, All, arith, subst,
}

holds-push_ready_below :
    (i v : ℕ) (ds ready : List ℕ) → v < i → holds v (push_ready i ds ready) ≡ holds v ready
unfolding push_ready
holds-push_ready_below i v [] ready h = refl
holds-push_ready_below i v (d ∷ ds) ready h =
    ground (arith, holds-push_ready_below (i + 1) v ds (if d == 0 then i ∷ ready else ready))

holds-push_ready :
    (i j : ℕ) (ds ready : List ℕ)
    → j < length ds
    → ((v : ℕ) → i ≤ v → holds v ready ≡ false)
    → holds (i + j) (push_ready i ds ready) ≡ (get_or ds j 0 == 0)
unfolding push_ready
holds-push_ready i j [] ready h r = elim h [ ]
holds-push_ready i zero (d ∷ ds) ready h r = ground (
  arith,
  r (i + 0),
  holds-push_ready_below (i + 1) (i + 0) ds (if d == 0 then i ∷ ready else ready),
)
holds-push_ready i (suc j) (d ∷ ds) ready h r =
    subst
      (λ k.
        holds k (push_ready (i + 1) ds (if d == 0 then i ∷ ready else ready))
        ≡ (get_or ds j 0 == 0))
      (omega arith)
      (holds-push_ready (i + 1) j ds (if d == 0 then i ∷ ready else ready) (omega arith)
        (λ v le. ground (arith, r v)))

push_ready-unseen :
    (n i : ℕ) (ds ready : List ℕ)
    → i + length ds ≤ n
    → All (λ v. (v < n) × (none_seen v ≡ false)) ready
    → All (λ v. (v < n) × (none_seen v ≡ false)) (push_ready i ds ready)
unfolding push_ready
push_ready-unseen n i [] ready h a = a
push_ready-unseen n i (d ∷ ds) ready h a =
    ground (arith, push_ready-unseen n (i + 1) ds (if d == 0 then i ∷ ready else ready))

push_ready-Distinct :
    (i : ℕ) (ds ready : List ℕ)
    → ((v : ℕ) → i ≤ v → holds v ready ≡ false)
    → Distinct ready
    → Distinct (push_ready i ds ready)
unfolding push_ready
push_ready-Distinct i [] ready h a = a
push_ready-Distinct i (d ∷ ds) ready h a =
    push_ready-Distinct (i + 1) ds (if d == 0 then i ∷ ready else ready)
      (λ v le. ground (arith, h v)) (ground (arith, h i))

from_start :
    (v : ℕ) (ds : List ℕ)
    → v < length ds
    → (holds v (push_ready 0 ds []) || none_seen v) ≡ (get_or ds v 0 == 0)
from_start v ds h =
    let there =
      subst (λ k. holds k (push_ready 0 ds []) ≡ (get_or ds v 0 == 0)) {x = 0 + v} {y = v}
        (omega arith) (holds-push_ready 0 v ds [] h (λ v le. refl)) in
    ground (arith, there)

-- The state in which the main loop starts.
pub starts-Fits :
    (n : ℕ) (arcs : List Arc)
    → All (InRange n) arcs
    → Fits n arcs none_seen [] (record {
      ready = push_ready 0 (tables_of n arcs).indegree [];
      indegree = (tables_of n arcs).indegree;
    })
starts-Fits n arcs r = record {
  size = length-tables_of n arcs;
  degrees = λ v h. indegree-tables_of n arcs v r ∙ omega arith;
  settled =
      λ v h. from_start v (tables_of n arcs).indegree (omega (arith, length-tables_of n arcs));
  unseen =
      push_ready-unseen n 0 (tables_of n arcs).indegree [] (omega (arith, length-tables_of n arcs))
        tt;
  distinct = push_ready-Distinct 0 (tables_of n arcs).indegree [] (λ v le. refl) tt;
}
