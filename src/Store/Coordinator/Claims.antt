-- ===== src/Store/Coordinator/Claims.antt =====
-- What one assignment of the coordinator does to the tables.
use jobman_control.Store.Consistency.{WorkFits, RowsFit}
use jobman_control.Store.Coordinator.Limits.{
  Assigned, Assigned-WorksEvolve, assigned_by, first_work-eq-some,
}
use jobman_control.Store.Database.Evolution.{IsSound, WorksEvolve, WorksEvolve-refl}
use jobman_control.Store.Coordinator.Made.{Assigns, offered_work-Assigns}
use jobman_control.Store.Coordinator.{placement, is_claimable}
use jobman_control.Store.Database.{Database, GenerationRow, AgentRow}
use jobman_control.Store.Coordinator.Offer.{
  Identifiers, reconcile_one_assignment, claim_assignment_candidate, assign_candidate, offer,
  comes_before, offered_work, assigned_tables, planned_dispatch,
}
use jobman_control.Store.Rows.{Work, Error, Dispatch, JobPhase}
use jobman_control.Prelude.{
  ℕ, String, Bool, true, false, Option, none, some, Result, ok, err, ◌≡◌, refl, ◌⊎◌, inl, inr,
  arith, Option-cases, >>=-eq-ok, subst, All_of_Member,
}

module _ (seal : Work → GenerationRow → AgentRow → Identifiers → Result Error String)
    (ids : Identifiers) (now : ℕ) (db : Database) where
  -- A successful transaction assigns one job, or changes nothing.
  pub reconcile_one_assignment-cases :
      (made : Bool) (db' : Database)
      → reconcile_one_assignment seal ids now db ≡ ok (made, db')
      → (made ≡ true) × Assigned seal ids now db db' ⊎ (made ≡ false) × (db' ≡ db)
  unfolding reconcile_one_assignment
  reconcile_one_assignment-cases made db' h =
      elim (Option-cases (claim_assignment_candidate now db)) [
        | inl absent ↦ inr (idle made db' (rw (reconcile_one_assignment, absent) at h))
        | inr (w, found) ↦ elim (Option-cases (placement now db w.job)) [
          | inl nowhere ↦ inr (idle made db' (rw (reconcile_one_assignment, found, nowhere) at h))
          | inr (p, placed) ↦
              let (done, assigned, last) =
                >>=-eq-ok (assign_candidate seal ids now db w p) _
                  (rw (reconcile_one_assignment, found, placed) at h) in
              inl (assignment made db' w p found done assigned last)
        ]
      ]
    where
      idle :
          (made : Bool) (db' : Database)
          → ◌≡◌ {A = Result Error (Bool × Database)} (ok (false, db)) (ok (made, db'))
          → (made ≡ false) × (db' ≡ db)
      idle made db' h = ground arith

      assignment :
          (made : Bool) (db' : Database) (w : Work) (p : GenerationRow × AgentRow)
          → claim_assignment_candidate now db ≡ some w
          → (done : Database) → assign_candidate seal ids now db w p ≡ ok done
          → ◌≡◌ {A = Result Error (Bool × Database)} (ok (true, done)) (ok (made, db'))
          → (made ≡ true) × Assigned seal ids now db db'
      assignment made db' w p found done assigned last =
          let same : done ≡ db' = ground arith in
          (
            ground arith,
            subst (λ x. Assigned seal ids now db x) same
                (assigned_by seal ids now db done w p found assigned),
          )

-- An assignment keeps the tables sound, and evolves the rows of the jobs.
pub reconcile_one_assignment-WorksEvolve :
    (seal : Work → GenerationRow → AgentRow → Identifiers → Result Error String) (ids : Identifiers)
    (now : ℕ) (db db' : Database) (made : Bool)
    → IsSound db.works
    → reconcile_one_assignment seal ids now db ≡ ok (made, db')
    → WorksEvolve db.works db'.works
reconcile_one_assignment-WorksEvolve seal ids now db db' made s h =
    elim (reconcile_one_assignment-cases seal ids now db made db' h) [
      | inl (_, assigned) ↦ Assigned-WorksEvolve seal ids now db db' s assigned
      | inr (_, same) ↦ rw same (WorksEvolve-refl db.works)
    ]

-- A claimable job of sound tables can be offered.
offer_succeeds :
    (ids : Identifiers) (digest : String) (now : ℕ) (g : GenerationRow) (a : AgentRow)
    (db : Database) (w : Work)
    → is_claimable now db w ≡ true
    → (o : Option Dispatch) → w.dispatch ≡ o
    → RowsFit w.job o
    → offer ids digest now g a w ≡ ok (offered_work ids digest now g a w)
unfolding offer is_claimable
offer_succeeds ids digest now g a db w c none e f = ground arith
offer_succeeds ids digest now g a db w c (some d) e f = absurd (ground arith)

placed_of_claimable :
    (now : ℕ) (db : Database) (w : Work)
    → is_claimable now db w ≡ true
    → (p : GenerationRow × AgentRow) × (placement now db w.job ≡ some p)
unfolding is_claimable
placed_of_claimable now db w c = elim (Option-cases (placement now db w.job)) [
  | inl nowhere ↦ absurd (ground arith)
  | inr placed ↦ placed
]

waiting_of_claimable :
    (now : ℕ) (db : Database) (w : Work)
    → is_claimable now db w ≡ true
    → w.job.phase ≡ JobPhase.accepted
unfolding is_claimable
waiting_of_claimable now db w c = ground arith

-- What becomes of a claimed job whose agent is `a`: it is assigned to that agent, under the digest of
-- the document that was built, or the document cannot be built, and that error rolls back.
abbrev pub Answers :
    (Work → GenerationRow → AgentRow → Identifiers → Result Error String)
    → Identifiers
    → ℕ
    → Database
    → Work
    → GenerationRow
    → AgentRow
    → Type 0
Answers seal ids now db w g a =
    ((digest : String) × (w' : Work) × (db' : Database) × (seal w g a ids ≡ ok digest)
      × (reconcile_one_assignment seal ids now db ≡ ok (true, db'))
      × Assigns db.works db'.works w w' a.id digest)
    ⊎ ((e : Error) × (seal w g a ids ≡ err e) × (reconcile_one_assignment seal ids now db ≡ err e))

module _ (seal : Work → GenerationRow → AgentRow → Identifiers → Result Error String)
    (ids : Identifiers) (now : ℕ) (db : Database) (w : Work) (s : IsSound db.works)
    (found : claim_assignment_candidate now db ≡ some w) where
  sealed-Answers :
      (g : GenerationRow) (a : AgentRow)
      → placement now db w.job ≡ some (g, a)
      → (r : Result Error String) → seal w g a ids ≡ r
      → Answers seal ids now db w g a
  unfolding reconcile_one_assignment assign_candidate claim_assignment_candidate offered_work
      planned_dispatch
  sealed-Answers g a placed (err e) failed =
      inr (e, failed, rw (reconcile_one_assignment, found, placed, failed) refl)
  sealed-Answers g a placed (ok digest) sealed =
      let (m, c) = first_work-eq-some (is_claimable now db) (comes_before db) db.works w found in
      let fits : WorkFits w = All_of_Member WorkFits db.works w s.fits m in
      let offered = offer_succeeds ids digest now g a db w c w.dispatch refl fits in
      let waits : w.job.phase ≡ JobPhase.accepted = waiting_of_claimable now db w c in
      let w' = offered_work ids digest now g a w in
      let db' = assigned_tables now w w' db in
      inl (
        digest,
        w',
        db',
        sealed,
        rw (reconcile_one_assignment, found, placed, sealed, offered) refl,
        offered_work-Assigns ids digest now g a w db.works s.distinct m waits,
      )

  -- On sound tables the job that is claimed has an agent, and the transaction assigns it to that
  -- agent, leaving the rows of all other jobs alone, unless its assignment document cannot be
  -- built: then it fails with that error. Neither of its guards loses the claim.
  pub reconcile_one_assignment-Answers :
      (g : GenerationRow) × (a : AgentRow) × (placement now db w.job ≡ some (g, a))
      × Answers seal ids now db w g a
  unfolding claim_assignment_candidate
  reconcile_one_assignment-Answers =
      let (m, c) = first_work-eq-some (is_claimable now db) (comes_before db) db.works w found in
      let ((g, a), placed) = placed_of_claimable now db w c in
      (g, a, placed, sealed-Answers g a placed (seal w g a ids) refl)
