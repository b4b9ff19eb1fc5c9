-- ===== src/Store/Coordinator/Loop.antt =====
-- The loop of ReconcileAssignments: what it counts, and why it stops.
use jobman_control.Store.Coordinator.Claims.{
  reconcile_one_assignment-cases, reconcile_one_assignment-WorksEvolve,
  reconcile_one_assignment-Answers,
}
use jobman_control.Store.Coordinator.Made.{waiting_jobs, Assigned-waiting_jobs}
use jobman_control.Store.Coordinator.Offer.{
  Identifiers, reconcile_one_assignment, claim_assignment_candidate, assign_up_to,
  reconcile_assignments,
}
use jobman_control.Store.Database.{Database, GenerationRow, AgentRow}
use jobman_control.Store.Database.Evolution.{
  IsSound, WorksEvolve, WorksEvolve-refl, WorksEvolve-IsSound, WorksEvolve-trans, AllEvolve,
  WorksEvolve-AllEvolve,
}
use jobman_control.Store.Rows.{Work, Error, invalid}
use jobman_control.Prelude.{
  ℕ, zero, suc, ◌+◌, ◌≤◌, ◌<◌, String, Bool, true, false, ◌||◌, Option, none, some, ltb, Result, ok,
  err, ◌≡◌, refl, ◌⊎◌, inl, inr, arith, Bool-cases, Option-cases,
}

module _ (seal : Work → GenerationRow → AgentRow → Identifiers → Result Error String)
    (ids : ℕ → Identifiers) (now : ℕ → ℕ) where
  -- Why the loop ends after `n` assignments: they are as many as are allowed, no job is left that
  -- can be claimed, or a transaction failed.
  abbrev pub Stops : ℕ → ℕ → Option Error → Database → Type 0
  Stops limit n e last =
      (n ≡ limit) × (e ≡ none)
      ⊎ ((k : ℕ) × (k < limit) × (e ≡ none) × (claim_assignment_candidate (now k) last ≡ none))
      ⊎ ((k : ℕ) × (x : Error) × (k < limit)
          × (e ≡ some x)
          × (reconcile_one_assignment seal (ids k) (now k) last ≡ err x))

  -- What a run of the loop from `db` did.
  pub record Ran (limit : ℕ) (db : Database) (n : ℕ) (e : Option Error) (last : Database)
      : Type 0 where
    pub few : n ≤ limit
    pub counted : waiting_jobs db.works ≡ n + waiting_jobs last.works
    pub path : WorksEvolve db.works last.works
    pub stop : Stops limit n e last

  -- The coordinator is idle on sound tables only when no job can be claimed.
  idle-none :
      (k : ℕ) (db db' : Database)
      → IsSound db.works
      → reconcile_one_assignment seal (ids k) (now k) db ≡ ok (false, db')
      → claim_assignment_candidate (now k) db ≡ none
  idle-none k db db' s h = elim (Option-cases (claim_assignment_candidate (now k) db)) [
    | inl absent ↦ absent
    | inr (w, found) ↦
        let (g, a, _, answers) =
          reconcile_one_assignment-Answers seal (ids k) (now k) db w s found in
        elim answers [
          | inl (_, _, _, _, made, _) ↦ absurd (ground (arith, made, h))
          | inr (_, _, failed) ↦ absurd (ground (arith, failed, h))
        ]
  ]

  counted_round :
      (k : ℕ) (db db' : Database)
      → IsSound db.works
      → reconcile_one_assignment seal (ids k) (now k) db ≡ ok (true, db')
      → waiting_jobs db.works ≡ suc (waiting_jobs db'.works)
  counted_round k db db' s h =
      elim (reconcile_one_assignment-cases seal (ids k) (now k) db true db' h) [
        | inr (idle, _) ↦ cc
        | inl (_, assigned) ↦ Assigned-waiting_jobs seal (ids k) (now k) db db' s assigned
      ]

  Stops-suc :
      (limit n : ℕ) (e : Option Error) (last : Database)
      → Stops limit n e last
      → Stops (suc limit) (suc n) e last
  Stops-suc limit n e last (inl (all, fine)) = inl (omega (arith, all), fine)
  Stops-suc limit n e last (inr (inl (k, less, fine, idle))) =
      inr (inl (k, omega (arith, less), fine, idle))
  Stops-suc limit n e last (inr (inr (k, x, less, failed, why))) =
      inr (inr (k, x, omega (arith, less), failed, why))

  assign_up_to-Ran :
      (limit : ℕ) (db : Database)
      → IsSound db.works
      → let (n, e, last) = assign_up_to seal ids now limit db in Ran limit db n e last
  unfolding assign_up_to
  assign_up_to-Ran zero db s = record {
    few = omega arith;
    counted = omega arith;
    path = WorksEvolve-refl db.works;
    stop = inl (refl, refl);
  }
  assign_up_to-Ran (suc limit) db s =
      round (assign_up_to-Ran limit) (reconcile_one_assignment seal (ids limit) (now limit) db) refl
    where
      round :
          ((mid : Database)
            → IsSound mid.works
            → let (n, e, last) = assign_up_to seal ids now limit mid in Ran limit mid n e last)
          → (r : Result Error (Bool × Database))
          → reconcile_one_assignment seal (ids limit) (now limit) db ≡ r
          → let (n, e, last) = assign_up_to seal ids now (suc limit) db in
            Ran (suc limit) db n e last
      round more (err x) h =
          rw (assign_up_to, h)
            (record {
              few = omega arith;
              counted = omega arith;
              path = WorksEvolve-refl db.works;
              stop = inr (inr (limit, x, omega arith, refl, h));
            })
      round more (ok (false, mid)) h =
          rw (assign_up_to, h)
            (record {
              few = omega arith;
              counted = omega arith;
              path = WorksEvolve-refl db.works;
              stop = inr (inl (limit, omega arith, refl, idle-none limit db mid s h));
            })
      round more (ok (true, mid)) h =
          let step =
            reconcile_one_assignment-WorksEvolve seal (ids limit) (now limit) db mid true s h in
          let rest = more mid (WorksEvolve-IsSound db.works mid.works step s) in
          rw (assign_up_to, h)
            (record {
              few = omega (arith, rest.few);
              counted = omega (arith, counted_round limit db mid s h, rest.counted);
              path =
                  WorksEvolve-trans db.works mid.works (assign_up_to seal ids now limit mid).2.works
                    step rest.path;
              stop =
                  Stops-suc limit (assign_up_to seal ids now limit mid).0
                    (assign_up_to seal ids now limit mid).1 (assign_up_to seal ids now limit mid).2
                    rest.stop;
            })

  -- ReconcileAssignments refuses a limit outside 1 to 1000 and then does nothing. Otherwise, on
  -- sound tables, it returns the exact number of jobs that it assigned, at most the limit: so many
  -- fewer jobs wait. It stops at the limit, or when no job can be claimed any more, or at the error
  -- of a transaction, which it returns; and the tables are sound, with the rows of each job evolved.
  pub reconcile_assignments_counts :
      (limit : ℕ) (db : Database)
      → IsSound db.works
      → let (n, e, last) = reconcile_assignments seal ids now limit db in
        ((limit < 1) ⊎ (1000 < limit)) × (n ≡ 0) × (e ≡ some invalid) × (last ≡ db)
        ⊎ (1 ≤ limit)
          × (limit ≤ 1000)
          × (n ≤ limit)
          × (waiting_jobs db.works ≡ n + waiting_jobs last.works)
          × Stops limit n e last
          × IsSound last.works
          × AllEvolve db.works last.works
  unfolding reconcile_assignments
  reconcile_assignments_counts limit db s = elim (Bool-cases (ltb limit 1 || ltb 1000 limit)) [
    | inl outside ↦
        rw (reconcile_assignments, outside) (inl (beyond limit outside, refl, refl, refl))
    | inr inside ↦
        let ran = assign_up_to-Ran limit db s in
        let (least, most) = within limit inside in
        rw (reconcile_assignments, inside)
          (inr (
            least,
            most,
            ran.few,
            ran.counted,
            ran.stop,
            WorksEvolve-IsSound db.works _ ran.path s,
            WorksEvolve-AllEvolve db.works _ ran.path s.fits,
          ))
  ]
    where
      beyond : (limit : ℕ) → (ltb limit 1 || ltb 1000 limit) ≡ true → (limit < 1) ⊎ (1000 < limit)
      beyond limit h = elim (Bool-cases (ltb limit 1)) [
        | inl low ↦ inl (ground arith)
        | inr other ↦ inr (ground arith)
      ]

      within : (limit : ℕ) → (ltb limit 1 || ltb 1000 limit) ≡ false → (1 ≤ limit) × (limit ≤ 1000)
      within limit h = ground arith
