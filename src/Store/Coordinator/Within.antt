-- ===== src/Store/Coordinator/Within.antt =====
-- An assignment keeps the limits on active jobs.
use jobman_control.Store.Coordinator.Claims.{reconcile_one_assignment-cases}
use jobman_control.Store.Coordinator.Limits.{
  count_after, namespace_below, collection_below, graph_below,
}
use jobman_control.Store.Coordinator.Made.{Assigns, Assigned-Assigns}
use jobman_control.Store.Database.Evolution.{IsSound}
use jobman_control.Store.Coordinator.{
  policy_of, active_count, of_namespace, collection_row, is_slurm_array, of_collection, graph_row,
  of_graph, is_claimable,
}
use jobman_control.Store.Database.{
  GraphRow, CollectionRow, Database, GenerationRow, PolicyRow, AgentRow,
}
use jobman_control.Store.Coordinator.Offer.{Identifiers, offered_work, reconcile_one_assignment}
use jobman_control.Store.Rows.{Work, Job, Error}
use jobman_control.Prelude.{
  ℕ, ◌≤◌, ◌<◌, String, Bool, true, Option, none, some, if◌then◌else◌, Result, ok, ◌≡◌, refl, inl,
  inr, arith, Bool-cases,
}

-- The limits of a job's namespace, collection and graph; a Slurm array has none.
abbrev pub policy_limit : Option PolicyRow → Option ℕ
policy_limit none = none
policy_limit (some p) = some p.max_active_jobs

abbrev pub row_limit : Option CollectionRow → Option ℕ
row_limit none = none
row_limit (some c) = if is_slurm_array c.array_mode then none else some c.max_active

abbrev pub graph_row_limit : Option GraphRow → Option ℕ
graph_row_limit none = none
graph_row_limit (some g) = some g.max_active

abbrev pub active_beside : (String → Job → Bool) → Option String → Database → ℕ
active_beside of none db = 0
active_beside of (some id) db = active_count (of id) db.works

abbrev pub IsWithin : ℕ → Option ℕ → Type 0
IsWithin n none = Unit
IsWithin n (some limit) = n ≤ limit

-- The active jobs of `after` beside `j` are within the limits that `before` sets.
pub record WithinLimits (before after : Database) (j : Job) : Type 0 where
  pub of_its_namespace :
      IsWithin
        (active_count (of_namespace j.namespace_id) after.works)
        (policy_limit (policy_of j before))
  pub of_its_collection :
      IsWithin
        (active_beside of_collection j.collection_id after)
        (row_limit (collection_row j before))
  pub of_its_graph :
      IsWithin (active_beside of_graph j.graph_id after) (graph_row_limit (graph_row j before))

zero-IsWithin : (o : Option ℕ) → IsWithin 0 o
zero-IsWithin none = tt
zero-IsWithin (some n) = omega arith

module _ (before after : Database) (w : Work)
    (below : (p : Job → Bool) (limit : ℕ)
      → active_count p before.works < limit
      → active_count p after.works ≤ limit) where
  collection-IsWithin :
      (now : ℕ)
      → is_claimable now before w ≡ true
      → (o : Option String) (r : Option CollectionRow) → w.job.collection_id ≡ o
      → collection_row w.job before ≡ r
      → IsWithin (active_beside of_collection o after) (row_limit r)
  collection-IsWithin now c none r e f = zero-IsWithin (row_limit r)
  collection-IsWithin now c (some id) none e f = tt
  collection-IsWithin now c (some id) (some row) e f =
      elim (Bool-cases (is_slurm_array row.array_mode)) [
        | inl array ↦ rw (IsWithin, array) tt
        | inr single ↦
            rw (IsWithin, single) (below _ _ (collection_below now before w id row c e f single))
      ]

  graph-IsWithin :
      (now : ℕ)
      → is_claimable now before w ≡ true
      → (o : Option String) (r : Option GraphRow) → w.job.graph_id ≡ o
      → graph_row w.job before ≡ r
      → IsWithin (active_beside of_graph o after) (graph_row_limit r)
  graph-IsWithin now c none r e f = zero-IsWithin (graph_row_limit r)
  graph-IsWithin now c (some id) none e f = tt
  graph-IsWithin now c (some id) (some row) e f =
      below _ _ (graph_below now before w id row c e f).0

  namespace-IsWithin :
      (now : ℕ)
      → is_claimable now before w ≡ true
      → (r : Option PolicyRow) → policy_of w.job before ≡ r
      → IsWithin (active_count (of_namespace w.job.namespace_id) after.works) (policy_limit r)
  namespace-IsWithin now c none f = tt
  namespace-IsWithin now c (some row) f = below _ _ (namespace_below now before w row c f)

-- When an assignment is made on sound tables, one waiting job is assigned and the rows of all others
-- stay, and the active jobs of the namespace of that job, of its collection, unless that is a Slurm
-- array, and of its graph are within their limits afterwards.
pub reconcile_one_assignment-WithinLimits :
    (seal : Work → GenerationRow → AgentRow → Identifiers → Result Error String) (ids : Identifiers)
    (now : ℕ) (db db' : Database)
    → IsSound db.works
    → reconcile_one_assignment seal ids now db ≡ ok (true, db')
    → (w : Work) × (w' : Work) × (agent_id : String) × (digest : String) × Assigns db.works
        db'.works w w' agent_id digest
      × WithinLimits db db' w.job
reconcile_one_assignment-WithinLimits seal ids now db db' s h =
    elim (reconcile_one_assignment-cases seal ids now db true db' h) [
      | inr (idle, _) ↦ cc
      | inl (_, r) ↦
          let below : (p : Job → Bool) (limit : ℕ)
              → active_count p db.works < limit
              → active_count p db'.works ≤ limit =
            λ p limit. count_after seal ids now db db' p limit s r in
          (
            r.work,
            offered_work ids r.digest now r.generation r.agent r.work,
            r.agent.id,
            r.digest,
            Assigned-Assigns seal ids now db db' s r,
            record {
              of_its_namespace = namespace-IsWithin db db' r.work below now r.claimable _ refl;
              of_its_collection =
                  collection-IsWithin db db' r.work below now r.claimable r.work.job.collection_id _
                    refl refl;
              of_its_graph =
                  graph-IsWithin db db' r.work below now r.claimable r.work.job.graph_id _ refl
                    refl;
            },
          )
    ]
