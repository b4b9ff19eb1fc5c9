-- ===== src/Store/Transactions/Stops.antt =====
-- A cancellation keeps the tables sound.
use jobman_control.Store.Transactions.Safety.{ok-works, or_fail-eq-ok, put_found}
use jobman_control.Store.Cancellation.{cancel_work}
use jobman_control.Store.Graphs.Resolution.{apply_graph_completion-WorksEvolve}
use jobman_control.Store.Transactions.Evolves.{cancel_work-Evolves}
use jobman_control.Store.Database.Evolution.{
  IsSound, WorksEvolve, WorksEvolve-trans, WorksEvolve-IsSound, WorksEvolve-refl,
}
use jobman_control.Store.Transactions.{
  cancel_job, cancel_answer, cancel_now, after_cancel, cancel_again, cancel_reserved, Authorization,
  is_over_or_cancelled, cancel_key, may_cancel,
}
use jobman_control.Store.Idempotency.{complete_idempotency, Reserved, replayed, reserve_idempotency}
use jobman_control.Store.Database.{Database, put_work, job_is_terminal}
use jobman_control.Store.Rows.{Error, Work, not_found, Job, forbidden, idempotency_conflict}
use jobman_control.Prelude.{
  String, Bool, false, ◌&&◌, not, some, if◌then◌else◌, str_eq, Result, ok, err, refuse, or_fail,
  ◌≡◌, inl, inr, arith, find?, Bool-cases, >>=-eq-ok,
}

cancel_again-WorksEvolve :
    (authorization : Authorization) (key : String) (w : Work) (db db' : Database) (j : Job)
    → cancel_again authorization key w db ≡ ok (j, db')
    → WorksEvolve db.works db'.works
unfolding cancel_again
cancel_again-WorksEvolve authorization key w db db' j h =
    let (rs, _, last) =
      >>=-eq-ok (complete_idempotency (cancel_key authorization key) w.job.id 200 db.reservations) _
        h in
    rw (ok-works w.job j (record db { reservations = rs }) db' last) (WorksEvolve-refl db.works)

after_cancel-WorksEvolve :
    (authorization : Authorization) (w : Work) (db db' : Database) (j : Job)
    → IsSound db.works
    → after_cancel authorization w db ≡ ok (j, db')
    → WorksEvolve db.works db'.works
unfolding after_cancel
after_cancel-WorksEvolve authorization w db db' j s h =
    elim (Bool-cases (job_is_terminal w.job.phase)) [
      | inl over ↦
          let (done, runs, path) =
            apply_graph_completion-WorksEvolve authorization.namespace_id w.job.id db s in
          rw (ok-works w.job j done db' (rw (over, runs) at h)) path
      | inr waits ↦ rw (ok-works w.job j db db' (rw waits at h)) (WorksEvolve-refl db.works)
    ]

cancel_now-WorksEvolve :
    (new_id : String → String) (authorization : Authorization) (key : String) (w : Work)
    (p : Work → Bool) (db db' : Database) (j : Job)
    → IsSound db.works
    → find? p db.works ≡ some w
    → job_is_terminal w.job.phase ≡ false
    → cancel_now new_id authorization key w db ≡ ok (j, db')
    → WorksEvolve db.works db'.works
unfolding cancel_now
cancel_now-WorksEvolve new_id authorization key w p db db' j s found live h =
    let (rs, _, last) =
      >>=-eq-ok (complete_idempotency (cancel_key authorization key) w.job.id 200 db.reservations) _
        h in
    let w' = cancel_work (new_id w.job.id) w in
    let next = put_work w' db.works in
    let step : WorksEvolve db.works next =
      put_found p db.works w w' s found (cancel_work-Evolves (new_id w.job.id) w live) in
    WorksEvolve-trans db.works next db'.works step (
      after_cancel-WorksEvolve authorization w' (record db { works = next; reservations = rs }) db'
        j (WorksEvolve-IsSound db.works next step s) last)

cancel_reserved-WorksEvolve :
    (new_id : String → String) (authorization : Authorization) (key : String) (w : Work)
    (p : Work → Bool) (db db' : Database) (j : Job)
    → IsSound db.works
    → find? p db.works ≡ some w
    → cancel_reserved new_id authorization key w db ≡ ok (j, db')
    → WorksEvolve db.works db'.works
unfolding cancel_reserved
cancel_reserved-WorksEvolve new_id authorization key w p db db' j s found h =
    elim (Bool-cases (is_over_or_cancelled w.job)) [
      | inl over ↦ cancel_again-WorksEvolve authorization key w db db' j (rw over at h)
      | inr live ↦
          cancel_now-WorksEvolve new_id authorization key w p db db' j s found (ground arith)
            (rw live at h)
    ]

cancel_answer-WorksEvolve :
    (new_id : String → String) (authorization : Authorization) (key : String) (w : Work)
    (p : Work → Bool) (db db' : Database) (j : Job) (r : Reserved)
    → IsSound db.works
    → find? p db.works ≡ some w
    → cancel_answer new_id authorization key w db r ≡ ok (j, db')
    → WorksEvolve db.works db'.works
unfolding cancel_answer
cancel_answer-WorksEvolve new_id authorization key w p db db' j Reserved.fresh s found h =
    cancel_reserved-WorksEvolve new_id authorization key w p db db' j s found h
cancel_answer-WorksEvolve new_id authorization key w p db db' j (replayed id) s found h =
    rw (same (str_eq id w.job.id) h) (WorksEvolve-refl db.works)
  where
    same :
        (b : Bool)
        → (if◌then◌else◌ {A = Result Error (Job × Database)} b
            (ok (w.job, db))
            (err idempotency_conflict))
          ≡ ok (j, db')
        → db'.works ≡ db.works
    same b h = ground arith

-- A cancellation keeps the tables sound, and evolves the rows of the jobs.
pub cancel_job-WorksEvolve :
    (new_id : String → String) (authorization : Authorization) (id key digest : String)
    (db db' : Database) (j : Job)
    → IsSound db.works
    → cancel_job new_id authorization id key digest db ≡ ok (j, db')
    → WorksEvolve db.works db'.works
unfolding cancel_job
cancel_job-WorksEvolve new_id authorization id key digest db db' j s h =
    let (w, found, h1) =
      >>=-eq-ok
        (or_fail
          (find? (λ w. str_eq w.job.id id && str_eq w.job.namespace_id authorization.namespace_id)
            db.works)
          not_found)
        _ h in
    let (_, _, h2) = >>=-eq-ok (refuse (not (may_cancel authorization w.job)) forbidden) _ h1 in
    let ((r, rs), _, h3) =
      >>=-eq-ok
        (reserve_idempotency (cancel_key authorization key) digest "job" 200 db.reservations) _
        h2 in
    cancel_answer-WorksEvolve new_id authorization key w _ (record db { reservations = rs }) db' j r
      s (or_fail-eq-ok _ not_found found) h3
