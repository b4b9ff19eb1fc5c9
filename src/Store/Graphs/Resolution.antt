-- ===== src/Store/Graphs/Resolution.antt =====
-- The loop of applyGraphCompletion ends, and closes exactly the nodes that can no longer run.
use jobman_control.Store.Database.Evolution.{
  Evolves, IsSound, WorksEvolve, WorksEvolve-refl, put_work-WorksEvolve, WorksEvolve-trans,
  WorksEvolve-IsSound,
}
use jobman_control.Store.Consistency.{WorkFits, RowsFit, IsUndispatched}
use jobman_control.Store.Rows.{Work, Dispatch, Job}
use jobman_control.Store.Database.{put_work, EdgeRow, job_is_accepted, UnsatisfiedPolicy, Database}
use jobman_control.Store.Graphs.{
  first_by_index, is_candidate, terminalize, resolve, apply_graph_completion_works,
  apply_graph_completion, graph_of, store_graph,
}
use jobman_control.Prelude.{
  ℕ, zero, suc, ◌≤◌, ◌<◌, String, Bool, true, false, Option, none, some, List, [], ◌∷◌,
  if◌then◌else◌, ◌≡◌, refl, inl, inr, arith, eq_iff, length, All, Member, Option-cases,
}

-- Jobs that wait.
abbrev waiting : List Work → ℕ
waiting [] = 0
waiting (w ∷ ws) = if job_is_accepted w.job.phase then suc (waiting ws) else waiting ws

waiting-le-length : (ws : List Work) → waiting ws ≤ length ws
waiting-le-length [] = omega arith
waiting-le-length (w ∷ ws) = ground (arith, waiting-le-length ws)

first_by_index-eq-none :
    (p : Work → Bool) (ws : List Work) → first_by_index p ws ≡ none → All (λ w. p w ≡ false) ws
unfolding first_by_index
first_by_index-eq-none p [] h = tt
first_by_index-eq-none p (w ∷ ws) h = ground (arith, first_by_index-eq-none p ws)

first_by_index-Member :
    (p : Work → Bool) (ws : List Work) (w : Work)
    → first_by_index p ws ≡ some w
    → Member w ws × (p w ≡ true)
unfolding first_by_index
first_by_index-Member p [] w h = cc
first_by_index-Member p (v ∷ ws) w h =
    ground (arith, first_by_index-Member p ws w, Option-cases (first_by_index p ws))

is_candidate-accepted :
    (g : String) (edges : List EdgeRow) (ws : List Work) (w : Work)
    → is_candidate g edges ws w ≡ true
    → job_is_accepted w.job.phase ≡ true
unfolding is_candidate
is_candidate-accepted g edges ws w h = ground arith

waiting-put_absent :
    (w' : Work) (ws : List Work)
    → job_is_accepted w'.job.phase ≡ false
    → waiting (put_work w' ws) ≤ waiting ws
unfolding put_work
waiting-put_absent w' [] h = omega arith
waiting-put_absent w' (v ∷ ws) h = ground (arith, waiting-put_absent w' ws)

waiting-put :
    (w w' : Work) (ws : List Work)
    → Member w ws
    → w'.job.id ≡ w.job.id
    → job_is_accepted w.job.phase ≡ true
    → job_is_accepted w'.job.phase ≡ false
    → waiting (put_work w' ws) < waiting ws
unfolding put_work
waiting-put w w' [] m s a b = elim m [ ]
waiting-put w w' (v ∷ ws) (inl e) s a b =
    ground (arith, waiting-put_absent w' ws, eq_iff v.job.id w'.job.id)
waiting-put w w' (v ∷ ws) (inr m) s a b = ground (arith, waiting-put w w' ws m)

-- A sequence of rounds: each closes one node that no longer can run.
pub data Resolves (g : String) (policy : UnsatisfiedPolicy) (edges : List EdgeRow)
    : List Work → List Work → Type 0 where
  settled : {ws : List Work} → Resolves g policy edges ws ws
  close :
      {ws vs : List Work} (w : Work)
      → Member w ws
      → is_candidate g edges ws w ≡ true
      → Resolves g policy edges (put_work (terminalize policy w) ws) vs
      → Resolves g policy edges ws vs

waiting-terminalize :
    (policy : UnsatisfiedPolicy) (w : Work) (ws : List Work)
    → Member w ws
    → job_is_accepted w.job.phase ≡ true
    → waiting (put_work (terminalize policy w) ws) < waiting ws
unfolding terminalize
waiting-terminalize policy w ws m a = waiting-put w (terminalize policy w) ws m refl a refl

module _ (g : String) (policy : UnsatisfiedPolicy) (edges : List EdgeRow) where
  resolve_total :
      (fuel : ℕ) (ws : List Work)
      → waiting ws < fuel
      → (vs : List Work) × (resolve fuel g policy edges ws ≡ some vs)
        × Resolves g policy edges ws vs
        × All (λ w. is_candidate g edges vs w ≡ false) vs
  unfolding resolve
  resolve_total zero ws h = absurd (omega arith)
  resolve_total (suc fuel) ws h =
      elim (Option-cases (first_by_index (is_candidate g edges ws) ws)) [
        | inl e ↦ (
          ws,
          rw (e, resolve) refl,
          settled,
          first_by_index-eq-none (is_candidate g edges ws) ws e,
        )
        | inr (w, e) ↦
            let (m, c) = first_by_index-Member (is_candidate g edges ws) ws w e in
            let less = waiting-terminalize policy w ws m (is_candidate-accepted g edges ws w c) in
            let (vs, runs, path, rest) =
              resolve_total fuel (put_work (terminalize policy w) ws) (omega arith) in
            (vs, rw (e, resolve) runs, close w m c path, rest)
      ]

  -- The loop ends for every graph and every table of jobs, with the fuel that the number of jobs
  -- gives. Each round closed a waiting node of the graph whose upstream jobs were over and did not
  -- all satisfy their edges, and no such node is left.
  pub apply_graph_completion_settles :
      (ws : List Work)
      → (vs : List Work) × (apply_graph_completion_works g policy edges ws ≡ some vs)
        × Resolves g policy edges ws vs
        × All (λ w. is_candidate g edges vs w ≡ false) vs
  unfolding apply_graph_completion_works
  apply_graph_completion_settles ws =
      resolve_total (suc (length ws)) ws (omega (arith, waiting-le-length ws))

RowsFit-waiting :
    (j : Job) (d : Option Dispatch)
    → RowsFit j d
    → job_is_accepted j.phase ≡ true
    → (d ≡ none) × IsUndispatched j
RowsFit-waiting j none f a = (refl, f)
RowsFit-waiting j (some d) f a = ground arith

terminalize-Evolves :
    (policy : UnsatisfiedPolicy) (w : Work)
    → job_is_accepted w.job.phase ≡ true
    → WorkFits w
    → Evolves w (terminalize policy w)
unfolding terminalize
terminalize-Evolves policy w a f = let (e, u) = RowsFit-waiting w.job w.dispatch f a in ground arith

Resolves-WorksEvolve :
    (g : String) (policy : UnsatisfiedPolicy) (edges : List EdgeRow) (ws vs : List Work)
    → Resolves g policy edges ws vs
    → IsSound ws
    → WorksEvolve ws vs
unfolding terminalize
Resolves-WorksEvolve g policy edges ws _ settled s = WorksEvolve-refl ws
Resolves-WorksEvolve g policy edges ws vs (close w m c path) s =
    let next = put_work (terminalize policy w) ws in
    let step : WorksEvolve ws next =
      put_work-WorksEvolve w (terminalize policy w) ws s.distinct m refl
        (terminalize-Evolves policy w (is_candidate-accepted g edges ws w c)) in
    WorksEvolve-trans ws next vs step
      (Resolves-WorksEvolve g policy edges next vs path (WorksEvolve-IsSound ws next step s))

-- The completion of a graph keeps the tables sound and only closes waiting jobs.
pub apply_graph_completion-WorksEvolve :
    (namespace_id id : String) (db : Database)
    → IsSound db.works
    → (db' : Database) × (apply_graph_completion namespace_id id db ≡ some db')
      × WorksEvolve db.works db'.works
unfolding apply_graph_completion
apply_graph_completion-WorksEvolve namespace_id id db s =
    elim (Option-cases (graph_of namespace_id id db)) [
      | inl e ↦ (db, rw (e, apply_graph_completion) refl, WorksEvolve-refl db.works)
      | inr (g, e) ↦
          let (vs, runs, path, _) =
            apply_graph_completion_settles g.id g.unsatisfied_policy db.edges db.works in
          (
            store_graph g vs db,
            rw (e, apply_graph_completion) (rw (runs, apply_graph_completion) refl),
            unfold store_graph in
                Resolves-WorksEvolve g.id g.unsatisfied_policy db.edges db.works vs path s,
          )
    ]
