-- ===== src/Store/Coordinator/Fairness.antt =====
-- Which job the coordinator claims.
use jobman_control.Store.Coordinator.{is_claimable}
use jobman_control.Store.Coordinator.Limits.{first_work-eq-some}
use jobman_control.Store.Coordinator.Offer.{
  before_time, same_time, last_dispatch, comes_before, first_work, claim_assignment_candidate,
}
use jobman_control.Store.Database.{Database}
use jobman_control.Store.Rows.{Work, Job}
use jobman_control.Prelude.{
  text_lt, text_lt_trans, text_lt_irrefl, text_lt-asym, text_lt-total, ℕ, ◌<◌, String, Bool, true,
  false, ◌&&◌, ◌||◌, Option, none, some, List, [], ◌∷◌, ◌==◌, ltb, ◌≡◌, refl, sym, ◌⊎◌, inl, inr,
  arith, Bool-cases, Option-cases, Member,
}

-- Never before any time.
abbrev pub IsEarlier : Option ℕ → Option ℕ → Type 0
IsEarlier o none = ⊥
IsEarlier none (some b) = Unit
IsEarlier (some a) (some b) = a < b

-- The namespace of `j` was served before that of `k`, or at the same time, and `j` is the older job,
-- or as old and first by its identifier.
abbrev pub IsAhead : Database → Job → Job → Type 0
IsAhead db j k =
    IsEarlier (last_dispatch db j) (last_dispatch db k)
    ⊎ (last_dispatch db j ≡ last_dispatch db k)
      × ((j.created_at < k.created_at) ⊎ (j.created_at ≡ k.created_at) × (text_lt j.id k.id ≡ true))

-- The comparison of two jobs by their three columns.
abbrev by_columns : Option ℕ → Option ℕ → ℕ → ℕ → Bool → Bool
by_columns o p a b less = before_time o p || same_time o p && (ltb a b || a == b && less)

text_not_less_trans :
    (s t u : String) → text_lt s t ≡ false → text_lt t u ≡ false → text_lt s u ≡ false
text_not_less_trans s t u h k = elim (Bool-cases (text_lt s u)) [
  | inr e ↦ e
  | inl less ↦ elim (Bool-cases (text_lt t s)) [
    | inl below ↦ cc (text_lt_trans t s u below less)
    | inr above ↦ rw (text_lt-total s t h above) k
  ]
]

columns_asym :
    (o p : Option ℕ) (a b : ℕ) (less more : Bool)
    → (less ≡ true → more ≡ false)
    → by_columns o p a b less ≡ true
    → by_columns p o b a more ≡ false
columns_asym none none a b less more t h = ground (arith, t)
columns_asym none (some y) a b less more t h = refl
columns_asym (some x) none a b less more t h = cc
columns_asym (some x) (some y) a b less more t h = ground (arith, t)

columns_trans :
    (o p q : Option ℕ) (a b c : ℕ) (s t u : Bool)
    → (s ≡ false → t ≡ false → u ≡ false)
    → by_columns o p a b s ≡ false
    → by_columns p q b c t ≡ false
    → by_columns o q a c u ≡ false
columns_trans none none none a b c s t u f h k = ground (arith, f)
columns_trans none none (some z) a b c s t u f h k = cc
columns_trans none (some y) q a b c s t u f h k = cc
columns_trans (some x) none none a b c s t u f h k = refl
columns_trans (some x) none (some z) a b c s t u f h k = cc
columns_trans (some x) (some y) none a b c s t u f h k = refl
columns_trans (some x) (some y) (some z) a b c s t u f h k = ground (arith, f)

columns_irrefl : (o : Option ℕ) (a : ℕ) → by_columns o o a a false ≡ false
columns_irrefl none a = ground arith
columns_irrefl (some x) a = ground arith

same_of : (o : Option ℕ) → same_time o o ≡ true
same_of none = refl
same_of (some x) = ground arith

earlier_before : (o p : Option ℕ) → IsEarlier o p → before_time o p ≡ true
earlier_before none none h = elim h [ ]
earlier_before (some x) none h = elim h [ ]
earlier_before none (some y) h = refl
earlier_before (some x) (some y) h = ground arith

by_columns_ahead :
    (o p : Option ℕ) (a b : ℕ) (less : Bool)
    → IsEarlier o p ⊎ (o ≡ p) × ((a < b) ⊎ (a ≡ b) × (less ≡ true))
    → by_columns o p a b less ≡ true
by_columns_ahead o p a b less (inl earlier) = rw (earlier_before o p earlier) refl
by_columns_ahead o p a b less (inr (same, inl older)) = rw (← same) (ground (arith, same_of o))
by_columns_ahead o p a b less (inr (same, inr (age, first))) =
    rw (← same) (ground (arith, same_of o, age, first))

module _ (db : Database) where
  comes_before-asym : (j k : Job) → comes_before db j k ≡ true → comes_before db k j ≡ false
  unfolding comes_before
  comes_before-asym j k h =
      columns_asym (last_dispatch db j) (last_dispatch db k) j.created_at k.created_at
        (text_lt j.id k.id) (text_lt k.id j.id) (text_lt-asym j.id k.id) h

  comes_before_trans :
      (j k l : Job)
      → comes_before db j k ≡ false
      → comes_before db k l ≡ false
      → comes_before db j l ≡ false
  unfolding comes_before
  comes_before_trans j k l h h' =
      columns_trans (last_dispatch db j) (last_dispatch db k) (last_dispatch db l) j.created_at
        k.created_at l.created_at (text_lt j.id k.id) (text_lt k.id l.id) (text_lt j.id l.id)
        (text_not_less_trans j.id k.id l.id) h h'

  comes_before_irrefl : (j : Job) → comes_before db j j ≡ false
  unfolding comes_before
  comes_before_irrefl j =
      rw (text_lt_irrefl j.id) (columns_irrefl (last_dispatch db j) j.created_at)

  -- The selected row has no selected row before it.
  first_work-least :
      (p : Work → Bool) (ws : List Work) (v : Work)
      → Member v ws
      → p v ≡ true
      → (w : Work) × (first_work p (comes_before db) ws ≡ some w)
        × (comes_before db v.job w.job ≡ false)
  unfolding first_work
  first_work-least p [] v m h = elim m [ ]
  first_work-least p (u ∷ us) v (inl e) h =
      let picked : p u ≡ true = rw e h in
      elim (Option-cases (first_work p (comes_before db) us)) [
        | inl alone ↦ (u, rw (picked, alone) refl, rw e (comes_before_irrefl v.job))
        | inr (w, later) ↦ elim (Bool-cases (comes_before db w.job u.job)) [
          | inl before ↦
              let behind : comes_before db v.job w.job ≡ false =
                rw (sym e) (comes_before-asym w.job u.job before) in
              (w, rw (picked, later, before) refl, behind)
          | inr after ↦ (u, rw (picked, later, after) refl, rw e (comes_before_irrefl v.job))
        ]
      ]
  first_work-least p (u ∷ us) v (inr m) h =
      let (w, later, behind) = first_work-least p us v m h in
      elim (Bool-cases (p u)) [
        | inr passed ↦ (w, rw (passed, later) refl, behind)
        | inl picked ↦ elim (Bool-cases (comes_before db w.job u.job)) [
          | inl before ↦ (w, rw (picked, later, before) refl, behind)
          | inr after ↦
              (u, rw (picked, later, after) refl, comes_before_trans v.job w.job u.job behind after)
        ]
      ]

  IsAhead-comes_before : (j k : Job) → IsAhead db j k → comes_before db j k ≡ true
  unfolding comes_before
  IsAhead-comes_before j k h =
      by_columns_ahead (last_dispatch db j) (last_dispatch db k) j.created_at k.created_at
        (text_lt j.id k.id) h

-- Whenever some job can be claimed, one is claimed that can be, and no job that can be claimed is
-- ahead of it: none is of a namespace that was served longer ago, a namespace that was never served
-- first, or at the same time and older, or as old with a smaller identifier.
pub claim_assignment_candidate_fair :
    (now : ℕ) (db : Database) (v : Work)
    → Member v db.works
    → is_claimable now db v ≡ true
    → (w : Work) × (claim_assignment_candidate now db ≡ some w)
      × Member w db.works
      × (is_claimable now db w ≡ true)
      × (¬ (IsAhead db v.job w.job))
unfolding claim_assignment_candidate
claim_assignment_candidate_fair now db v m c =
    let (w, found, behind) = first_work-least db (is_claimable now db) db.works v m c in
    let (there, claimable) =
      first_work-eq-some (is_claimable now db) (comes_before db) db.works w found in
    (w, found, there, claimable, λ ahead. cc (IsAhead-comes_before db v.job w.job ahead, behind))
