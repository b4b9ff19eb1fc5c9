-- ===== src/Contracts/Graphs/Walks.antt =====
-- contracts/jobman/v1alpha1/validate.go: the invariant of the main loop of graphContainsCycle.
use jobman_control.Contracts.Graphs.{get_or, Arc, Walk, release, release_all}
use jobman_control.Contracts.Graphs.Degrees.{
  get_or-set, length-set, open_in, targets, occurrences, InRange,
}
use jobman_control.Prelude.{
  ℕ, zero, suc, ◌+◌, ◌-◌, ◌<◌, Bool, true, false, ◌||◌, List, [], ◌∷◌, ◌==◌, length, if◌then◌else◌,
  ◌≡◌, refl, ap, ◌∙◌, All, arith, any, Bool-cases, ==_iff, subst, inl, inr,
}

-- Membership as a test.
abbrev pub holds : ℕ → List ℕ → Bool
holds v = any (λ x. x == v)

abbrev pub Distinct : List ℕ → Type 0
Distinct [] = Unit
Distinct (x ∷ xs) = (holds x xs ≡ false) × Distinct xs

-- The nodes in `seen` are visited; `ts` are the targets of the last one that are still to be released.
-- Every node's degree counts the edges into it that no visit has released, and a node of degree zero
-- is ready or seen, never both.
pub record Fits (n : ℕ) (arcs : List Arc) (seen : ℕ → Bool) (ts : List ℕ) (w : Walk) : Type 0 where
  pub size : length w.indegree ≡ n
  pub degrees : (v : ℕ) → v < n → get_or w.indegree v 0 ≡ open_in seen v arcs + occurrences v ts
  pub settled : (v : ℕ) → v < n → (holds v w.ready || seen v) ≡ (get_or w.indegree v 0 == 0)
  pub unseen : All (λ v. (v < n) × (seen v ≡ false)) w.ready
  pub distinct : Distinct w.ready

data Degree (d : ℕ) : Type 0 where
  none_left : d ≡ 0 → Degree d
  one_left : d ≡ 1 → Degree d
  more_left : (k : ℕ) → d ≡ suc (suc k) → Degree d

Degree-of : (d : ℕ) → Degree d
Degree-of zero = none_left refl
Degree-of (suc zero) = one_left refl
Degree-of (suc (suc k)) = more_left k refl

same_degree : (ds : List ℕ) (t v : ℕ) → t ≡ v → get_or ds t 0 ≡ get_or ds v 0
same_degree ds t v e = ap (λ i. get_or ds i 0) e

module _ (w : Walk) (t : ℕ) where
  release-ready :
      (release w t).ready ≡ (if get_or w.indegree t 0 == 1 then t ∷ w.ready else w.ready)
  unfolding release
  release-ready = elim (Degree-of (get_or w.indegree t 0)) [
    | none_left e ↦ rw (e, release)
    | one_left e ↦ rw (e, release)
    | more_left k e ↦ rw (e, release) (ground arith)
  ]

  release-size : length (release w t).indegree ≡ length w.indegree
  unfolding release
  release-size = elim (Degree-of (get_or w.indegree t 0)) [
    | none_left e ↦ rw (e, release)
    | one_left e ↦ rw (e, release) (length-set w.indegree t 0)
    | more_left k e ↦ rw (e, release) (length-set w.indegree t (suc k))
  ]

  release-degree :
      (v : ℕ)
      → t < length w.indegree
      → get_or (release w t).indegree v 0
        ≡ (if t == v then get_or w.indegree t 0 - 1 else get_or w.indegree v 0)
  unfolding release
  release-degree v h = elim (Degree-of (get_or w.indegree t 0)) [
    | none_left e ↦ rw (e, release) (ground (arith, e, same_degree w.indegree t v))
    | one_left e ↦ rw (e, release) (get_or-set w.indegree t v 0 0 h)
    | more_left k e ↦ rw (e, release) (ground (arith, get_or-set w.indegree t v (suc k) 0))
  ]

holds_of_All :
    (n : ℕ) (seen : ℕ → Bool) (v : ℕ) (xs : List ℕ)
    → All (λ x. (x < n) × (seen x ≡ false)) xs
    → holds v xs ≡ true
    → (v < n) × (seen v ≡ false)
holds_of_All n seen v [] a h = cc
holds_of_All n seen v (x ∷ xs) a h = elim (Bool-cases (x == v)) [
  | inl e ↦ subst (λ y. (y < n) × (seen y ≡ false)) ((==_iff x v).0 e) a.0
  | inr e ↦ holds_of_All n seen v xs a.1 (ground arith)
]

module _ (n : ℕ) (arcs : List Arc) (seen : ℕ → Bool) (t : ℕ) (ts : List ℕ) (w : Walk)
    (inside : t < n) (f : Fits n arcs seen (t ∷ ts) w) where
  within : t < length w.indegree
  within = ground (arith, f.size)

  counted : 0 < get_or w.indegree t 0
  counted = ground (arith, f.degrees t inside)

  not_settled : (holds t w.ready ≡ false) × (seen t ≡ false)
  not_settled = ground (arith, f.settled t inside, counted)

  release-degrees :
      (v : ℕ) → v < n → get_or (release w t).indegree v 0 ≡ open_in seen v arcs + occurrences v ts
  release-degrees v h = ground (
    arith,
    release-degree w t v within,
    f.degrees v h,
    f.degrees t inside,
    same_degree w.indegree t v,
  )

  settled_here : (holds t (release w t).ready || seen t) ≡ (get_or (release w t).indegree t 0 == 0)
  settled_here =
      ground (arith, release-ready w t, release-degree w t t within, not_settled, counted)

  settled_elsewhere :
      (v : ℕ)
      → v < n
      → (t == v) ≡ false
      → (holds v (release w t).ready || seen v) ≡ (get_or (release w t).indegree v 0 == 0)
  settled_elsewhere v h e =
      ground (arith, release-ready w t, release-degree w t v within, f.settled v h)

  release-settled :
      (v : ℕ)
      → v < n
      → (holds v (release w t).ready || seen v) ≡ (get_or (release w t).indegree v 0 == 0)
  release-settled v h = elim (Bool-cases (t == v)) [
    | inl e ↦
        subst
          (λ v. (holds v (release w t).ready || seen v) ≡ (get_or (release w t).indegree v 0 == 0))
          ((==_iff t v).0 e) settled_here
    | inr e ↦ settled_elsewhere v h e
  ]

  pub release-Fits : Fits n arcs seen ts (release w t)
  release-Fits = record {
    size = release-size w t ∙ f.size;
    degrees = release-degrees;
    settled = release-settled;
    unseen = ground (arith, release-ready w t, f.unseen, not_settled);
    distinct = ground (arith, release-ready w t, f.distinct, not_settled);
  }

module _ (n : ℕ) (arcs : List Arc) (seen : ℕ → Bool) where
  pub release_all-Fits :
      (ts : List ℕ) (w : Walk)
      → All (λ t. t < n) ts
      → Fits n arcs seen ts w
      → Fits n arcs seen [] (release_all w ts)
  unfolding release_all
  release_all-Fits [] w r f = f
  release_all-Fits (t ∷ ts) w r f =
      release_all-Fits ts (release w t) r.1 (release-Fits n arcs seen t ts w r.0 f)

-- The set with one node more.
abbrev pub and_seen : ℕ → (ℕ → Bool) → ℕ → Bool
and_seen x seen v = x == v || seen v

pub same_seen : (seen : ℕ → Bool) (u x : ℕ) → u ≡ x → seen u ≡ seen x
same_seen seen u x e = ap seen e

still_unseen :
    (n : ℕ) (seen : ℕ → Bool) (x : ℕ) (rest : List ℕ)
    → holds x rest ≡ false
    → All (λ v. (v < n) × (seen v ≡ false)) rest
    → All (λ v. (v < n) × (and_seen x seen v ≡ false)) rest
still_unseen n seen x [] h a = tt
still_unseen n seen x (v ∷ rest) h a = ground (arith, still_unseen n seen x rest)

open_in-and_seen :
    (seen : ℕ → Bool) (x v : ℕ) (arcs : List Arc)
    → seen x ≡ false
    → open_in seen v arcs ≡ open_in (and_seen x seen) v arcs + occurrences v (targets x arcs)
open_in-and_seen seen x v [] h = omega arith
open_in-and_seen seen x v (arc ∷ arcs) h =
    ground (arith, open_in-and_seen seen x v arcs, same_seen seen arc.from x)

pub targets-InRange :
    (n x : ℕ) (arcs : List Arc) → All (InRange n) arcs → All (λ t. t < n) (targets x arcs)
targets-InRange n x [] r = tt
targets-InRange n x (arc ∷ arcs) r = ground (arith, targets-InRange n x arcs)

-- The visit of the node on top of the stack.
pub visit-Fits :
    (n : ℕ) (arcs : List Arc) (seen : ℕ → Bool) (x : ℕ) (rest ds : List ℕ)
    → Fits n arcs seen [] (record { ready = x ∷ rest; indegree = ds })
    → Fits n arcs (and_seen x seen) (targets x arcs) (record { ready = rest; indegree = ds })
visit-Fits n arcs seen x rest ds f = record {
  size = f.size;
  degrees = λ v h. ground (arith, f.degrees v h, open_in-and_seen seen x v arcs, f.unseen);
  settled = λ v h. ground (arith, f.settled v h);
  unseen = still_unseen n seen x rest f.distinct.0 f.unseen.1;
  distinct = f.distinct.1;
}
