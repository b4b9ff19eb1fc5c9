-- ===== src/Store/Database/Evolution.antt =====
-- How a row of a job may change in a transaction, and how the table of jobs then changes.
use jobman_control.Prelude.{
  ℕ, ◌≤◌, List, [], ◌∷◌, ◌≡◌, ◌⊎◌, String, Bool, true, refl, eq_iff, arith, update_rows, All, sym,
  inl, inr, Bool-cases, Member, any, false, subst, ◌∙◌, ap, any_of_Member,
}
use jobman_control.Store.Rows.{Work, JobPhase, DesiredState}
use jobman_control.Store.Consistency.{WorkFits}
use jobman_control.Store.Database.{put_work, has_id}

abbrev pub rank : JobPhase → ℕ
rank JobPhase.accepted = 0
rank JobPhase.assigning = 1
rank JobPhase.accepted_execution = 2
rank JobPhase.running = 3
rank JobPhase.terminal = 4

-- A change that a transaction may make to the row of a job whose rows fit together: the identity
-- stays, the phase and the revision do not fall, a wish to cancel stays, the outcome of a
-- terminal job stays, and the rows still fit.
pub record Evolves (w w' : Work) : Type 0 where
  pub same_id : w'.job.id ≡ w.job.id
  pub same_namespace : w'.job.namespace_id ≡ w.job.namespace_id
  pub same_owner : w'.job.owner_principal_id ≡ w.job.owner_principal_id
  pub phase_grows : rank w.job.phase ≤ rank w'.job.phase
  pub revision_grows : w.job.revision ≤ w'.job.revision
  pub cancel_stays :
      w.job.desired_state ≡ DesiredState.cancel → w'.job.desired_state ≡ DesiredState.cancel
  pub outcome_stays : w.job.phase ≡ JobPhase.terminal → w'.job.outcome ≡ w.job.outcome
  pub still_fits : WorkFits w'

-- Row by row.
abbrev pub Pointwise : (Work → Work → Type 0) → List Work → List Work → Type 0
Pointwise R [] [] = Unit
Pointwise R [] (w' ∷ ws') = ⊥
Pointwise R (w ∷ ws) [] = ⊥
Pointwise R (w ∷ ws) (w' ∷ ws') = R w w' × Pointwise R ws ws'

-- What each transaction may do to the table, provided that all rows fit.
abbrev pub WorksEvolve : List Work → List Work → Type 0
WorksEvolve = Pointwise (λ w w'. WorkFits w → Evolves w w')

pub Evolves-refl : (w : Work) → WorkFits w → Evolves w w
Evolves-refl w f = record {
  same_id = refl;
  same_namespace = refl;
  same_owner = refl;
  phase_grows = omega arith;
  revision_grows = omega arith;
  cancel_stays = λ h. h;
  outcome_stays = λ _. refl;
  still_fits = f;
}

terminal_of_rank : (p : JobPhase) → 4 ≤ rank p → p ≡ JobPhase.terminal
terminal_of_rank JobPhase.accepted h = absurd (omega arith)
terminal_of_rank JobPhase.assigning h = absurd (omega arith)
terminal_of_rank JobPhase.accepted_execution h = absurd (omega arith)
terminal_of_rank JobPhase.running h = absurd (omega arith)
terminal_of_rank JobPhase.terminal h = refl

-- A terminal job stays terminal.
pub Evolves-terminal :
    (u v : Work) → Evolves u v → u.job.phase ≡ JobPhase.terminal → v.job.phase ≡ JobPhase.terminal
Evolves-terminal u v p t = terminal_of_rank v.job.phase (rw t at p.phase_grows)

pub Evolves-trans : (u v w : Work) → Evolves u v → Evolves v w → Evolves u w
Evolves-trans u v w p q = record {
  same_id = q.same_id ∙ p.same_id;
  same_namespace = q.same_namespace ∙ p.same_namespace;
  same_owner = q.same_owner ∙ p.same_owner;
  phase_grows = omega (arith, p.phase_grows, q.phase_grows);
  revision_grows = omega (arith, p.revision_grows, q.revision_grows);
  cancel_stays = λ h. q.cancel_stays (p.cancel_stays h);
  outcome_stays = λ h. q.outcome_stays (Evolves-terminal u v p h) ∙ p.outcome_stays h;
  still_fits = q.still_fits;
}

pub WorksEvolve-refl : (ws : List Work) → WorksEvolve ws ws
WorksEvolve-refl [] = tt
WorksEvolve-refl (w ∷ ws) = (Evolves-refl w, WorksEvolve-refl ws)

pub WorksEvolve-trans :
    (us vs ws : List Work) → WorksEvolve us vs → WorksEvolve vs ws → WorksEvolve us ws
WorksEvolve-trans [] [] [] p q = tt
WorksEvolve-trans [] [] (w ∷ ws) p q = elim q [ ]
WorksEvolve-trans [] (v ∷ vs) ws p q = elim p [ ]
WorksEvolve-trans (u ∷ us) [] ws p q = elim p [ ]
WorksEvolve-trans (u ∷ us) (v ∷ vs) [] p q = elim q [ ]
WorksEvolve-trans (u ∷ us) (v ∷ vs) (w ∷ ws) p q =
    (λ f. Evolves-trans u v w (p.0 f) (q.0 (p.0 f).still_fits), WorksEvolve-trans us vs ws p.1 q.1)

-- An update of the rows that a test selects.
pub update_rows-WorksEvolve :
    (p : Work → Bool) (f : Work → Work)
    → ((w : Work) → p w ≡ true → WorkFits w → Evolves w (f w))
    → (ws : List Work) → WorksEvolve ws (update_rows p f ws)
update_rows-WorksEvolve p f step [] = tt
update_rows-WorksEvolve p f step (w ∷ ws) = (
  λ fits. elim (Bool-cases (p w)) [
    | inl hit ↦ rw hit (step w hit fits)
    | inr miss ↦ rw miss (Evolves-refl w fits)
  ],
  update_rows-WorksEvolve p f step ws,
)

-- The primary key of jobs.
abbrev pub DistinctIds : List Work → Type 0
DistinctIds [] = Unit
DistinctIds (w ∷ ws) = (any (has_id w.job.id) ws ≡ false) × DistinctIds ws

pub put_absent :
    (w' : Work) (ws : List Work) → any (has_id w'.job.id) ws ≡ false → put_work w' ws ≡ ws
unfolding put_work
put_absent w' [] h = refl
put_absent w' (w ∷ ws) h = ground (arith, put_absent w' ws)

other_id :
    (w w' v : Work) (vs : List Work)
    → any (has_id v.job.id) vs ≡ false
    → Member w vs
    → w'.job.id ≡ w.job.id
    → has_id w'.job.id v ≡ false
other_id w w' v vs a m s = ground (
  arith,
  any_of_Member (has_id v.job.id) vs w m,
  eq_iff v.job.id w'.job.id,
  eq_iff w.job.id v.job.id,
)

-- A row written back takes the place of the one row of its job.
pub put_work-cases :
    (w w' v : Work) (vs : List Work)
    → DistinctIds (v ∷ vs)
    → Member w (v ∷ vs)
    → w'.job.id ≡ w.job.id
    → (w ≡ v) × (put_work w' (v ∷ vs) ≡ w' ∷ vs)
      ⊎ Member w vs × (put_work w' (v ∷ vs) ≡ v ∷ put_work w' vs)
unfolding put_work
put_work-cases w w' v vs d (inl e) s =
    let same : w'.job.id ≡ v.job.id = s ∙ ap (λ (x : Work). x.job.id) (sym e) in
    let hit : has_id w'.job.id v ≡ true = (eq_iff v.job.id w'.job.id).1 (sym same) in
    let absent : any (has_id w'.job.id) vs ≡ false = rw same d.0 in
    inl (sym e, rw (hit, put_absent w' vs absent) refl)
put_work-cases w w' v vs d (inr m) s =
    let miss : has_id w'.job.id v ≡ false = other_id w w' v vs d.0 m s in inr (m, rw miss refl)

-- The row of a job written back after a change that a transaction may make.
pub put_work-WorksEvolve :
    (w w' : Work) (ws : List Work)
    → DistinctIds ws
    → Member w ws
    → w'.job.id ≡ w.job.id
    → (WorkFits w → Evolves w w')
    → WorksEvolve ws (put_work w' ws)
put_work-WorksEvolve w w' [] d m s step = elim m [ ]
put_work-WorksEvolve w w' (v ∷ vs) d m s step = elim (put_work-cases w w' v vs d m s) [
  | inl (here, written) ↦
      rw written (subst (λ x. WorkFits x → Evolves x w') here step, WorksEvolve-refl vs)
  | inr (later, kept) ↦ rw kept (Evolves-refl v, put_work-WorksEvolve w w' vs d.1 later s step)
]

-- What the tables keep between transactions: each job's rows fit, and no identity is used twice.
pub record IsSound (ws : List Work) : Type 0 where
  pub fits : All WorkFits ws
  pub distinct : DistinctIds ws

WorksEvolve-fits : (us vs : List Work) → WorksEvolve us vs → All WorkFits us → All WorkFits vs
WorksEvolve-fits [] [] p f = tt
WorksEvolve-fits [] (v ∷ vs) p f = elim p [ ]
WorksEvolve-fits (u ∷ us) [] p f = elim p [ ]
WorksEvolve-fits (u ∷ us) (v ∷ vs) p f = ((p.0 f.0).still_fits, WorksEvolve-fits us vs p.1 f.1)

WorksEvolve-any :
    (id : String) (us vs : List Work)
    → WorksEvolve us vs
    → All WorkFits us
    → any (has_id id) vs ≡ any (has_id id) us
WorksEvolve-any id [] [] p f = refl
WorksEvolve-any id [] (v ∷ vs) p f = elim p [ ]
WorksEvolve-any id (u ∷ us) [] p f = elim p [ ]
WorksEvolve-any id (u ∷ us) (v ∷ vs) p f = rw ((p.0 f.0).same_id, WorksEvolve-any id us vs p.1 f.1)

WorksEvolve-distinct :
    (us vs : List Work) → WorksEvolve us vs → All WorkFits us → DistinctIds us → DistinctIds vs
WorksEvolve-distinct [] [] p f d = tt
WorksEvolve-distinct [] (v ∷ vs) p f d = elim p [ ]
WorksEvolve-distinct (u ∷ us) [] p f d = elim p [ ]
WorksEvolve-distinct (u ∷ us) (v ∷ vs) p f d = (
  rw ((p.0 f.0).same_id, WorksEvolve-any u.job.id us vs p.1 f.1) d.0,
  WorksEvolve-distinct us vs p.1 f.1 d.1,
)

-- A transaction that evolves the rows keeps the tables sound.
pub WorksEvolve-IsSound : (us vs : List Work) → WorksEvolve us vs → IsSound us → IsSound vs
WorksEvolve-IsSound us vs p s = record {
  fits = WorksEvolve-fits us vs p s.fits;
  distinct = WorksEvolve-distinct us vs p s.fits s.distinct;
}

-- Every row evolves.
abbrev pub AllEvolve : List Work → List Work → Type 0
AllEvolve = Pointwise Evolves

pub WorksEvolve-AllEvolve :
    (us vs : List Work) → WorksEvolve us vs → All WorkFits us → AllEvolve us vs
WorksEvolve-AllEvolve [] [] p f = tt
WorksEvolve-AllEvolve [] (v ∷ vs) p f = elim p [ ]
WorksEvolve-AllEvolve (u ∷ us) [] p f = elim p [ ]
WorksEvolve-AllEvolve (u ∷ us) (v ∷ vs) p f = (p.0 f.0, WorksEvolve-AllEvolve us vs p.1 f.1)
