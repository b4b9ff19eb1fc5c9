-- ===== src/Contracts/Graphs/Orders.antt =====
-- contracts/jobman/v1alpha1/validate.go: the order in which graphContainsCycle visits the nodes.
use jobman_control.Contracts.Graphs.{get_or, Arc, count_visited, release_all}
use jobman_control.Contracts.Graphs.Degrees.{open_in, InRange, targets, none_seen}
use jobman_control.Contracts.Graphs.Walks.{
  Fits, and_seen, visit-Fits, release_all-Fits, targets-InRange, same_seen,
}
use jobman_control.Prelude.{
  ℕ, zero, suc, ◌+◌, ◌<◌, ◌≤◌, Bool, true, false, Option, some, List, [], ◌∷◌, ◌==◌, if◌then◌else◌,
  ◌≡◌, refl, sym, All, arith,
}

abbrev pub count_below : ℕ → (ℕ → Bool) → ℕ
count_below zero seen = 0
count_below (suc n) seen = (if seen n then 1 else 0) + count_below n seen

pub count_below-le : (n : ℕ) (seen : ℕ → Bool) → count_below n seen ≤ n
count_below-le zero seen = omega arith
count_below-le (suc n) seen = ground (arith, count_below-le n seen)

-- A count of all is of each, and of none is zero.
pub all_counted : (n : ℕ) (seen : ℕ → Bool) (v : ℕ) → count_below n seen ≡ n → v < n → seen v ≡ true
all_counted zero seen v h lt = elim lt [ ]
all_counted (suc n) seen v h lt =
    ground (arith, count_below-le n seen, all_counted n seen v, same_seen seen n v)

pub count_all :
    (n : ℕ) (seen : ℕ → Bool) → ((v : ℕ) → v < n → seen v ≡ true) → count_below n seen ≡ n
count_all zero seen h = refl
count_all (suc n) seen h = ground (arith, h n, count_all n seen (λ v lt. h v (omega arith)))

count_none : (n : ℕ) → count_below n none_seen ≡ 0
count_none zero = refl
count_none (suc n) = omega (arith, count_none n)

count_outside :
    (n : ℕ) (seen : ℕ → Bool) (x : ℕ) → n ≤ x → count_below n (and_seen x seen) ≡ count_below n seen
count_outside zero seen x h = refl
count_outside (suc n) seen x h = ground (arith, count_outside n seen x)

count_one_more :
    (n : ℕ) (seen : ℕ → Bool) (x : ℕ)
    → x < n
    → seen x ≡ false
    → count_below n (and_seen x seen) ≡ count_below n seen + 1
count_one_more zero seen x h s = elim h [ ]
count_one_more (suc n) seen x h s =
    ground (arith, count_outside n seen x, same_seen seen x n, count_one_more n seen x)

-- The visited nodes, ranked by their turn: each edge into one comes from one of a lower rank.
pub record Ranked (n : ℕ) (arcs : List Arc) (seen : ℕ → Bool) (rank : ℕ → ℕ) (visited : ℕ)
    : Type 0 where
  pub counted : visited ≡ count_below n seen
  pub below : (v : ℕ) → seen v ≡ true → rank v < visited
  pub climbs : All (λ a. seen a.to ≡ true → (seen a.from ≡ true) × (rank a.from < rank a.to)) arcs

abbrev and_rank : ℕ → ℕ → (ℕ → ℕ) → ℕ → ℕ
and_rank x visited rank v = if x == v then visited else rank v

-- The edges into a node of degree zero come from visited nodes.
pub open_in-zero :
    (seen : ℕ → Bool) (v : ℕ) (arcs : List Arc)
    → open_in seen v arcs ≡ 0
    → All (λ a. (a.to == v) ≡ true → seen a.from ≡ true) arcs
open_in-zero seen v [] h = tt
open_in-zero seen v (a ∷ arcs) h = ((λ e. ground arith), open_in-zero seen v arcs (ground arith))

climbs_visit :
    (seen : ℕ → Bool) (rank : ℕ → ℕ) (visited x : ℕ) (arcs : List Arc)
    → seen x ≡ false
    → ((v : ℕ) → seen v ≡ true → rank v < visited)
    → All (λ a. (a.to == x) ≡ true → seen a.from ≡ true) arcs
    → All (λ a. seen a.to ≡ true → (seen a.from ≡ true) × (rank a.from < rank a.to)) arcs
    → All
        (λ a.
          and_seen x seen a.to ≡ true
          → (and_seen x seen a.from ≡ true)
            × (and_rank x visited rank a.from < and_rank x visited rank a.to))
        arcs
climbs_visit seen rank visited x [] s b o c = tt
climbs_visit seen rank visited x (a ∷ arcs) s b o c = (
  (λ h. ground (arith, b a.from, o.0, c.0, same_seen seen x a.from, same_seen seen x a.to)),
  climbs_visit seen rank visited x arcs s b o.1 c.1,
)

no_climbs :
    (arcs : List Arc)
    → All (λ a. none_seen a.to ≡ true → (none_seen a.from ≡ true) × (a.from < a.to)) arcs
no_climbs [] = tt
no_climbs (a ∷ arcs) = ((λ h. cc), no_climbs arcs)

-- A visit adds its node to the order.
visit-Ranked :
    (n : ℕ) (arcs : List Arc) (seen : ℕ → Bool) (rank : ℕ → ℕ) (visited x : ℕ) (rest ds : List ℕ)
    → Fits n arcs seen [] (record { ready = x ∷ rest; indegree = ds })
    → Ranked n arcs seen rank visited
    → Ranked n arcs (and_seen x seen) (and_rank x visited rank) (visited + 1)
visit-Ranked n arcs seen rank visited x rest ds f r = record {
  counted = ground (arith, r.counted, count_one_more n seen x, f.unseen);
  below = λ v s. ground (arith, r.below v);
  climbs =
      climbs_visit seen rank visited x arcs f.unseen.0.1 r.below
        (open_in-zero seen x arcs
          (ground (arith, f.settled x f.unseen.0.0, f.degrees x f.unseen.0.0)))
        r.climbs;
}

-- How the main loop ends: by its test, with every visited node ranked.
pub record Ends (n : ℕ) (arcs : List Arc) (result : Option ℕ) : Type 0 where
  pub visited : ℕ
  pub seen : ℕ → Bool
  pub rank : ℕ → ℕ
  pub indegree : List ℕ
  pub returns : result ≡ some visited
  pub fits : Fits n arcs seen [] (record { ready = []; indegree = indegree })
  pub ranked : Ranked n arcs seen rank visited

pub count_visited-Ends :
    (n : ℕ) (arcs : List Arc) (adjacency : List (List ℕ))
    → All (InRange n) arcs
    → ((x : ℕ) → get_or adjacency x [] ≡ targets x arcs)
    → (fuel : ℕ) (visited : ℕ) (seen : ℕ → Bool) (rank : ℕ → ℕ) (ready ds : List ℕ)
    → n < fuel + visited
    → Fits n arcs seen [] (record { ready = ready; indegree = ds })
    → Ranked n arcs seen rank visited
    → Ends n arcs (count_visited fuel adjacency visited (record { ready = ready; indegree = ds }))
unfolding count_visited
count_visited-Ends n arcs adjacency i t zero visited seen rank ready ds h f r =
    absurd (omega (arith, r.counted, count_below-le n seen))
count_visited-Ends n arcs adjacency i t (suc fuel) visited seen rank [] ds h f r = record {
  visited = visited;
  seen = seen;
  rank = rank;
  indegree = ds;
  returns = refl;
  fits = f;
  ranked = r;
}
count_visited-Ends n arcs adjacency i t (suc fuel) visited seen rank (x ∷ rest) ds h f r =
    rw (t x) (
      count_visited-Ends n arcs adjacency i t fuel (visited + 1) (and_seen x seen)
        (and_rank x visited rank)
        (release_all (record { ready = rest; indegree = ds }) (targets x arcs)).ready
        (release_all (record { ready = rest; indegree = ds }) (targets x arcs)).indegree
        (omega arith)
        (release_all-Fits n arcs (and_seen x seen) (targets x arcs)
          (record { ready = rest; indegree = ds }) (targets-InRange n x arcs i)
          (visit-Fits n arcs seen x rest ds f))
        (visit-Ranked n arcs seen rank visited x rest ds f r))

pub none_seen-Ranked : (n : ℕ) (arcs : List Arc) → Ranked n arcs none_seen (λ v. v) 0
none_seen-Ranked n arcs = record {
  counted = sym (count_none n);
  below = λ v h. cc;
  climbs = no_climbs arcs;
}
