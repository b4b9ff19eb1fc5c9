-- ===== src/Store/Coordinator/Limits.antt =====
-- An assignment keeps the limits on active jobs, and the tables sound.
use jobman_control.Store.Consistency.{WorkFits}
use jobman_control.Store.Coordinator.{
  active_count, is_claimable, collection_admits, graph_admits, namespace_admits, policy_of,
  collection_row, of_graph, is_slurm_array, of_namespace, of_collection, is_ready, graph_row,
}
use jobman_control.Store.Database.{
  CollectionRow, PolicyRow, GraphRow, Database, put_work, GenerationRow, AgentRow, has_id,
}
use jobman_control.Store.Database.Evolution.{
  DistinctIds, Evolves, put_absent, IsSound, WorksEvolve, put_work-WorksEvolve,
}
use jobman_control.Store.Rows.{Work, Job, JobPhase, DesiredState, Error}
use jobman_control.Store.Coordinator.Offer.{
  offer, first_work, offered_work, planned_dispatch, Identifiers, assign_candidate, assigned_tables,
  claim_assignment_candidate, comes_before,
}
use jobman_control.Prelude.{
  ℕ, suc, ◌≤◌, ◌<◌, String, Bool, true, false, none, some, List, [], ◌∷◌, Result, ok, ◌≡◌, refl,
  sym, inl, inr, arith, eq_iff, any, Member, Bool-cases, Option-cases, >>=-eq-ok, ok-injective,
}

pub first_work-eq-some :
    (p : Work → Bool) (before : Job → Job → Bool) (ws : List Work) (w : Work)
    → first_work p before ws ≡ some w
    → Member w ws × (p w ≡ true)
unfolding first_work
first_work-eq-some p before [] w h = cc
first_work-eq-some p before (v ∷ vs) w h = elim (Option-cases (first_work p before vs)) [
  | inl none_left ↦ ground arith
  | inr (u, rest) ↦ ground (arith, first_work-eq-some p before vs u)
]

offer-eq-ok :
    (ids : Identifiers) (digest : String) (now : ℕ) (g : GenerationRow) (a : AgentRow) (w w' : Work)
    → offer ids digest now g a w ≡ ok w'
    → (w' ≡ offered_work ids digest now g a w)
      × (w.dispatch ≡ none)
      × (w.job.phase ≡ JobPhase.accepted)
      × (w.job.desired_state ≡ DesiredState.run)
unfolding offer
offer-eq-ok ids digest now g a w w' h = ground arith

pub offered_work-Evolves :
    (ids : Identifiers) (digest : String) (now : ℕ) (g : GenerationRow) (a : AgentRow) (w : Work)
    → w.job.phase ≡ JobPhase.accepted
    → w.dispatch ≡ none
    → WorkFits w
    → Evolves w (offered_work ids digest now g a w)
unfolding offered_work planned_dispatch
offered_work-Evolves ids digest now g a w p e f = ground arith

-- One row written back makes at most one more job active.
active_count-put_work :
    (p : Job → Bool) (w' : Work) (ws : List Work)
    → DistinctIds ws
    → active_count p (put_work w' ws) ≤ suc (active_count p ws)
unfolding put_work
active_count-put_work p w' [] d = omega arith
active_count-put_work p w' (v ∷ vs) d = elim (Bool-cases (has_id w'.job.id v)) [
  | inl hit ↦
      let absent : any (has_id w'.job.id) vs ≡ false =
        rw ((eq_iff v.job.id w'.job.id).0 hit) at d.0 in
      rw (hit, put_absent w' vs absent) (ground arith)
  | inr miss ↦ rw miss (ground (arith, active_count-put_work p w' vs))
]

module _ (seal : Work → GenerationRow → AgentRow → Identifiers → Result Error String)
    (ids : Identifiers) (now : ℕ) (db db' : Database) where
  -- What an assignment that was made did.
  pub record Assigned : Type 0 where
    pub work : Work
    pub generation : GenerationRow
    pub agent : AgentRow
    pub digest : String
    pub member : Member work db.works
    pub claimable : is_claimable now db work ≡ true
    pub undispatched : work.dispatch ≡ none
    pub waiting : work.job.phase ≡ JobPhase.accepted
    pub stored : db'.works ≡ put_work (offered_work ids digest now generation agent work) db.works

  pub assigned_by :
      (w : Work) (p : GenerationRow × AgentRow)
      → claim_assignment_candidate now db ≡ some w
      → assign_candidate seal ids now db w p ≡ ok db'
      → Assigned
  unfolding assign_candidate assigned_tables claim_assignment_candidate
  assigned_by w (g, a) c h =
      let (digest, _, h1) = >>=-eq-ok (seal w g a ids) _ h in
      let (w', offered, last) = >>=-eq-ok (offer ids digest now g a w) _ h1 in
      let (same, none_yet, waits, _) = offer-eq-ok ids digest now g a w w' offered in
      let (m, cl) = first_work-eq-some (is_claimable now db) (comes_before db) db.works w c in
      record {
        work = w;
        generation = g;
        agent = a;
        digest = digest;
        member = m;
        claimable = cl;
        undispatched = none_yet;
        waiting = waits;
        stored =
            rw (sym (ok-injective {E = Error} (assigned_tables now w w' db) db' last), same) refl;
      }

  pub Assigned-WorksEvolve : IsSound db.works → Assigned → WorksEvolve db.works db'.works
  unfolding offered_work
  Assigned-WorksEvolve s r = rw r.stored (
      put_work-WorksEvolve r.work (offered_work ids r.digest now r.generation r.agent r.work)
        db.works s.distinct r.member refl
        (offered_work-Evolves ids r.digest now r.generation r.agent r.work r.waiting
          r.undispatched))

  pub count_after :
      (p : Job → Bool) (limit : ℕ)
      → IsSound db.works
      → Assigned
      → active_count p db.works < limit
      → active_count p db'.works ≤ limit
  count_after p limit s r below = rw r.stored (
      omega (
        arith,
        below,
        active_count-put_work p (offered_work ids r.digest now r.generation r.agent r.work) db.works
            s.distinct,
      ))

-- What the WHERE clause says of the limits.
pub namespace_below :
    (now : ℕ) (db : Database) (w : Work) (p : PolicyRow)
    → is_claimable now db w ≡ true
    → policy_of w.job db ≡ some p
    → active_count (of_namespace w.job.namespace_id) db.works < p.max_active_jobs
unfolding is_claimable namespace_admits
namespace_below now db w p h e = ground arith

pub collection_below :
    (now : ℕ) (db : Database) (w : Work) (id : String) (c : CollectionRow)
    → is_claimable now db w ≡ true
    → w.job.collection_id ≡ some id
    → collection_row w.job db ≡ some c
    → is_slurm_array c.array_mode ≡ false
    → active_count (of_collection id) db.works < c.max_active
unfolding is_claimable collection_admits
collection_below now db w id c h e f m = ground arith

pub graph_below :
    (now : ℕ) (db : Database) (w : Work) (id : String) (g : GraphRow)
    → is_claimable now db w ≡ true
    → w.job.graph_id ≡ some id
    → graph_row w.job db ≡ some g
    → (active_count (of_graph id) db.works < g.max_active)
      × (is_ready db.edges db.works w.job ≡ true)
unfolding is_claimable graph_admits
graph_below now db w id g h e f = ground arith
