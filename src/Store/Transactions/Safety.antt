-- ===== src/Store/Transactions/Safety.antt =====
-- Every transaction keeps the tables sound.
use jobman_control.Store.Artifacts.{is_success}
use jobman_control.Store.Cancellation.{cancel_collection_sibling}
use jobman_control.Store.Graphs.Resolution.{apply_graph_completion-WorksEvolve}
use jobman_control.Store.Collections.{
  is_open_sibling, cancel_siblings, apply_collection_completion, collection_of, is_fail_fast,
}
use jobman_control.Store.Transactions.Evolves.{
  accept_assignment-Evolves, event_work, record_event-Evolves, cancel_work-Evolves,
}
use jobman_control.Store.Consistency.{WorkFits}
use jobman_control.Store.Database.Evolution.{
  IsSound, Evolves, WorksEvolve, put_work-WorksEvolve, WorksEvolve-trans, WorksEvolve-IsSound,
  update_rows-WorksEvolve, WorksEvolve-refl,
}
use jobman_control.Store.Transactions.{
  accept_assignment_transaction, has_assignment, record_execution_event, after_event, has_execution,
  event_is_taken, complete_groups,
}
use jobman_control.Store.Database.{Database, put_work, job_is_terminal}
use jobman_control.Store.Acceptance.{accept_assignment}
use jobman_control.Store.Events.{record_event}
use jobman_control.Store.EventChecks.{completes}
use jobman_control.Store.Rows.{
  Error, Work, AgentIdentity, Acceptance, LaunchAuthorization, not_found, ExecutionObservation,
  Outcome,
}
use jobman_control.Prelude.{
  ℕ, String, Bool, true, false, ◌&&◌, not, Option, none, some, List, Result, ok, or_fail, ◌≡◌, refl,
  inl, inr, arith, any, find?, Bool-cases, Option-cases, >>=-eq-ok, find?-Member, All_of_Member,
}

-- What the lookup of a row gives.
module _ (p : Work → Bool) (ws : List Work) (w w' : Work) where
  pub put_found :
      IsSound ws
      → find? p ws ≡ some w
      → (WorkFits w → Evolves w w')
      → WorksEvolve ws (put_work w' ws)
  put_found s h step =
      let (m, _) = find?-Member p ws w h in
      let f : WorkFits w = All_of_Member WorkFits ws w s.fits m in
      put_work-WorksEvolve w w' ws s.distinct m (step f).same_id step

pub or_fail-eq-ok {ℓ} :
    {A : Type ℓ} (o : Option A) (e : Error) {a : A} → or_fail o e ≡ ok a → o ≡ some a
or_fail-eq-ok none e h = cc
or_fail-eq-ok (some b) e h = cc

pub ok-works {ℓ} :
    {R : Type ℓ} {E : Type 0} (r r' : R) (db db' : Database)
    → ◌≡◌ {A = Result E (R × Database)} (ok (r, db)) (ok (r', db'))
    → db'.works ≡ db.works
ok-works r r' db db' h = ground arith

-- An acceptance keeps the tables sound, and evolves the rows of the jobs.
pub accept_assignment_transaction-WorksEvolve :
    (identity : AgentIdentity) (a : Acceptance) (now : ℕ) (db db' : Database)
    (launch : LaunchAuthorization)
    → IsSound db.works
    → accept_assignment_transaction identity a now db ≡ ok (launch, db')
    → WorksEvolve db.works db'.works
unfolding accept_assignment_transaction
accept_assignment_transaction-WorksEvolve identity a now db db' launch s h =
    let (w, found, h1) =
      >>=-eq-ok
        (or_fail (find? (has_assignment a.delivery_id identity.namespace_id) db.works) not_found) _
        h in
    let (d, e, h2) = >>=-eq-ok (or_fail w.dispatch not_found) _ h1 in
    let ((l, w'), accepted, last) = >>=-eq-ok (accept_assignment identity a now w d) _ h2 in
    let step =
      accept_assignment-Evolves identity a now w w' d l (or_fail-eq-ok w.dispatch not_found e)
        accepted in
    let same : db'.works ≡ put_work w' db.works = ok-works l launch _ db' last in
    rw same (
      put_found (has_assignment a.delivery_id identity.namespace_id) db.works w w' s
        (or_fail-eq-ok _ not_found found) step)

open_of_is_open_sibling :
    (c id : String) (w : Work) → is_open_sibling c id w ≡ true → job_is_terminal w.job.phase ≡ false
unfolding is_open_sibling
open_of_is_open_sibling c id w h = ground arith

cancel_siblings-WorksEvolve :
    (new_id : String → String) (c id : String) (ws : List Work)
    → WorksEvolve ws (cancel_siblings new_id c id ws)
unfolding cancel_siblings
cancel_siblings-WorksEvolve new_id c id ws =
    update_rows-WorksEvolve (is_open_sibling c id)
      (λ w. cancel_collection_sibling (new_id w.job.id) w)
      (λ w listed f.
        cancel_work-Evolves (new_id w.job.id) w (open_of_is_open_sibling c id w listed) f)
      ws

apply_collection_completion-WorksEvolve :
    (new_id : String → String) (namespace_id id : String) (outcome : Option Outcome) (db : Database)
    → WorksEvolve db.works (apply_collection_completion new_id namespace_id id outcome db).works
unfolding apply_collection_completion
apply_collection_completion-WorksEvolve new_id namespace_id id outcome db =
    elim (Option-cases (collection_of namespace_id id db)) [
      | inl e ↦ rw (e, apply_collection_completion) (WorksEvolve-refl db.works)
      | inr (c, e) ↦
          rw (e, apply_collection_completion)
            (elim (Bool-cases (is_fail_fast c.failure_policy && not (is_success outcome))) [
              | inl fails ↦ rw fails (cancel_siblings-WorksEvolve new_id c.id id db.works)
              | inr goes_on ↦ rw goes_on (WorksEvolve-refl db.works)
            ])
    ]

complete_groups-WorksEvolve :
    (new_id : String → String) (namespace_id id : String) (outcome : Option Outcome) (db : Database)
    → IsSound db.works
    → (done : Database) × (complete_groups new_id namespace_id id outcome db ≡ ok done)
      × WorksEvolve db.works done.works
unfolding complete_groups
complete_groups-WorksEvolve new_id namespace_id id outcome db s =
    let mid = apply_collection_completion new_id namespace_id id outcome db in
    let first : WorksEvolve db.works mid.works =
      apply_collection_completion-WorksEvolve new_id namespace_id id outcome db in
    let (done, runs, last) =
      apply_graph_completion-WorksEvolve namespace_id id mid
        (WorksEvolve-IsSound db.works mid.works first s) in
    (done, rw runs refl, WorksEvolve-trans db.works mid.works done.works first last)

after_event-WorksEvolve :
    (new_id : String → String) (identity : AgentIdentity) (event : ExecutionObservation)
    (id : String) (again again' : Bool) (db db' : Database)
    → IsSound db.works
    → after_event new_id identity event id again db ≡ ok (again', db')
    → WorksEvolve db.works db'.works
unfolding after_event
after_event-WorksEvolve new_id identity event id again again' db db' s h =
    elim (Bool-cases (not again && completes event.event_type)) [
      | inl closes ↦
          let (done, runs, path) =
            complete_groups-WorksEvolve new_id identity.namespace_id id event.outcome db s in
          rw (ok-works again again' done db' (rw (closes, runs) at h)) path
      | inr stays ↦ rw (ok-works again again' db db' (rw stays at h)) (WorksEvolve-refl db.works)
    ]

-- An event, new or repeated, keeps the tables sound, with all that its completion closes.
pub record_execution_event-WorksEvolve :
    (new_id : String → String) (identity : AgentIdentity) (event : ExecutionObservation)
    (db db' : Database) (again : Bool)
    → IsSound db.works
    → record_execution_event new_id identity event db ≡ ok (again, db')
    → WorksEvolve db.works db'.works
unfolding record_execution_event
record_execution_event-WorksEvolve new_id identity event db db' again s h =
    let (w, found, h1) =
      >>=-eq-ok
        (or_fail (find? (has_execution event.execution_id identity.namespace_id) db.works)
          not_found)
        _ h in
    let (d, e, h2) = >>=-eq-ok (or_fail w.dispatch not_found) _ h1 in
    let ((l, j', d'), recorded, last) =
      >>=-eq-ok
        (record_event identity event
          (any (event_is_taken event.event_id event.execution_id) db.works) w.job d)
        _ h2 in
    let w' = event_work w j' d' in
    let next = put_work w' db.works in
    let step =
      put_found (has_execution event.execution_id identity.namespace_id) db.works w w' s
        (or_fail-eq-ok _ not_found found)
        (record_event-Evolves identity event _ w j' d d' l (or_fail-eq-ok w.dispatch not_found e)
          recorded) in
    WorksEvolve-trans db.works next db'.works step (
      after_event-WorksEvolve new_id identity event w.job.id l again (record db { works = next })
        db' (WorksEvolve-IsSound db.works next step s) (unfold event_work in last))
