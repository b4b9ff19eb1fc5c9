-- ===== src/Store/Coordinator/Made.antt =====
-- How an assignment that was made changes the table of jobs: one waiting job is assigned, and the
-- rows of the others are left alone.
use jobman_control.Store.Coordinator.Limits.{Assigned}
use jobman_control.Store.Coordinator.Offer.{Identifiers, offered_work, planned_dispatch}
use jobman_control.Store.Database.{Database, GenerationRow, AgentRow, put_work, job_is_accepted}
use jobman_control.Store.Database.Evolution.{DistinctIds, IsSound, Pointwise, put_work-cases}
use jobman_control.Store.Rows.{Work, Dispatch, Error, JobPhase}
use jobman_control.Prelude.{
  ℕ, suc, String, some, List, [], ◌∷◌, if◌then◌else◌, Result, ◌≡◌, refl, sym, ◌∙◌, ap, ◌⊎◌, inl,
  inr, arith, Member,
}

abbrev pub KeptBut : Work → Work → List Work → List Work → Type 0
KeptBut w w' = Pointwise (λ v v'. (v ≡ w) × (v' ≡ w') ⊎ (v' ≡ v))

-- Between the two tables the waiting job `w` was assigned to the agent, with the digest of its
-- effective execution; its row is now `w'`, and every other row is as it was.
pub record Assigns (before after : List Work) (w w' : Work) (agent_id digest : String)
    : Type 0 where
  pub was_there : Member w before
  pub was_waiting : w.job.phase ≡ JobPhase.accepted
  pub is_there : Member w' after
  pub same_job : w'.job.id ≡ w.job.id
  pub is_assigning : w'.job.phase ≡ JobPhase.assigning
  pub dispatch : Dispatch
  pub is_dispatched : w'.dispatch ≡ some dispatch
  pub to_agent : dispatch.execution.agent_id ≡ agent_id
  pub with_digest : dispatch.execution.effective_spec_digest ≡ digest
  pub others : KeptBut w w' before after

KeptBut-refl : (w w' : Work) (ws : List Work) → KeptBut w w' ws ws
KeptBut-refl w w' [] = tt
KeptBut-refl w w' (v ∷ vs) = (inr refl, KeptBut-refl w w' vs)

module _ (w w' : Work) (s : w'.job.id ≡ w.job.id) where
  put_work-KeptBut :
      (ws : List Work) → DistinctIds ws → Member w ws → KeptBut w w' ws (put_work w' ws)
  put_work-KeptBut [] d m = elim m [ ]
  put_work-KeptBut (v ∷ vs) d m = elim (put_work-cases w w' v vs d m s) [
    | inl (here, written) ↦ rw written (inl (sym here, refl), KeptBut-refl w w' vs)
    | inr (later, kept) ↦ rw kept (inr refl, put_work-KeptBut vs d.1 later)
  ]

  put_work-Member : (ws : List Work) → DistinctIds ws → Member w ws → Member w' (put_work w' ws)
  put_work-Member [] d m = elim m [ ]
  put_work-Member (v ∷ vs) d m = elim (put_work-cases w w' v vs d m s) [
    | inl (here, written) ↦ rw written (inl refl)
    | inr (later, kept) ↦ rw kept (inr (put_work-Member vs d.1 later))
  ]

-- The jobs that wait for an assignment.
abbrev pub waiting_jobs : List Work → ℕ
waiting_jobs [] = 0
waiting_jobs (w ∷ ws) =
    if job_is_accepted w.job.phase then suc (waiting_jobs ws) else waiting_jobs ws

waiting_jobs-put_work :
    (w w' : Work) (ws : List Work)
    → DistinctIds ws
    → Member w ws
    → w'.job.id ≡ w.job.id
    → w.job.phase ≡ JobPhase.accepted
    → w'.job.phase ≡ JobPhase.assigning
    → waiting_jobs ws ≡ suc (waiting_jobs (put_work w' ws))
waiting_jobs-put_work w w' [] d m s p p' = elim m [ ]
waiting_jobs-put_work w w' (v ∷ vs) d m s p p' = elim (put_work-cases w w' v vs d m s) [
  | inl (here, written) ↦
      let waits : v.job.phase ≡ JobPhase.accepted = ap (λ (x : Work). x.job.phase) (sym here) ∙ p in
      rw (written, waits, p') refl
  | inr (later, kept) ↦ rw kept (ground (arith, waiting_jobs-put_work w w' vs d.1 later s p p'))
]

-- The rows after a row of an offered job is written back.
pub offered_work-Assigns :
    (ids : Identifiers) (digest : String) (now : ℕ) (g : GenerationRow) (a : AgentRow) (w : Work)
    (ws : List Work)
    → DistinctIds ws
    → Member w ws
    → w.job.phase ≡ JobPhase.accepted
    → Assigns ws
        (put_work (offered_work ids digest now g a w) ws)
        w
        (offered_work ids digest now g a w)
        a.id
        digest
unfolding offered_work planned_dispatch
offered_work-Assigns ids digest now g a w ws d m p = record {
  was_there = m;
  was_waiting = p;
  is_there = put_work-Member w (offered_work ids digest now g a w) refl ws d m;
  same_job = refl;
  is_assigning = refl;
  dispatch = planned_dispatch ids digest now g a w.job;
  is_dispatched = refl;
  to_agent = refl;
  with_digest = refl;
  others = put_work-KeptBut w (offered_work ids digest now g a w) refl ws d m;
}

module _ (seal : Work → GenerationRow → AgentRow → Identifiers → Result Error String)
    (ids : Identifiers) (now : ℕ) (db db' : Database) (s : IsSound db.works) where
  pub Assigned-Assigns :
      (r : Assigned seal ids now db db')
      → Assigns db.works db'.works r.work
          (offered_work ids r.digest now r.generation r.agent r.work)
          r.agent.id
          r.digest
  Assigned-Assigns r = rw r.stored (
      offered_work-Assigns ids r.digest now r.generation r.agent r.work db.works s.distinct r.member
        r.waiting)

  pub Assigned-waiting_jobs :
      Assigned seal ids now db db' → waiting_jobs db.works ≡ suc (waiting_jobs db'.works)
  unfolding offered_work
  Assigned-waiting_jobs r = rw r.stored (
      waiting_jobs-put_work r.work (offered_work ids r.digest now r.generation r.agent r.work)
        db.works s.distinct r.member refl r.waiting refl)
