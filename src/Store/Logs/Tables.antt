-- ===== src/Store/Logs/Tables.antt =====
-- A delivery of a log chunk among the other tables.
use jobman_control.Store.Acceptance.{is_planned}
use jobman_control.Store.Transactions.Safety.{or_fail-eq-ok, ok-works, put_found}
use jobman_control.Store.Transactions.{has_execution}
use jobman_control.Store.Logs.{deliver_chunk, conflict}
use jobman_control.Store.LogKeys.{is_malformed, approved_store, log_object_key}
use jobman_control.Store.Rows.{
  Error, LogChunk, AgentIdentity, StreamRow, Work, Dispatch, forbidden, not_found,
}
use jobman_control.Store.Consistency.{WorkFits}
use jobman_control.Store.Database.Evolution.{IsSound, WorksEvolve, Evolves}
use jobman_control.Store.Database.{Database}
use jobman_control.Store.Logs.Delivery.{
  deliver_to_execution, commit_log_chunk, delivered_work, locked_stream,
}
use jobman_control.Prelude.{
  ℕ, Bool, ◌||◌, not, some, str_eq, Result, ok, refuse, or_fail, ◌≡◌, sym, arith, find?, >>=-eq-ok,
}

delivered_work-Evolves :
    (chunk : LogChunk) (again : Bool) (s : StreamRow) (w : Work) (d : Dispatch)
    → w.dispatch ≡ some d
    → WorkFits w
    → Evolves w (delivered_work chunk again s w d)
unfolding delivered_work
delivered_work-Evolves chunk again s w d e f = ground arith

deliver_to_execution-eq-ok :
    (identity : AgentIdentity) (chunk : LogChunk) (now : ℕ) (w w' : Work) (d : Dispatch)
    (again : Bool)
    → deliver_to_execution identity chunk now w d ≡ ok (again, w')
    → (s : StreamRow) × (deliver_chunk now chunk (locked_stream chunk d.execution.streams)
        ≡ ok (again, s))
      × (w' ≡ delivered_work chunk again s w d)
unfolding deliver_to_execution
deliver_to_execution-eq-ok identity chunk now w w' d again h =
    let (_, _, h1) =
      >>=-eq-ok
        (refuse
          (not (str_eq d.execution.agent_id identity.agent_id)
            || not (str_eq chunk.agent_id identity.agent_id))
          forbidden)
        _ h in
    let (_, _, h2) =
      >>=-eq-ok (refuse (not (approved_store chunk d.execution.log_store)) forbidden) _ h1 in
    let (_, _, h3) = >>=-eq-ok (refuse (is_planned d.execution.phase) conflict) _ h2 in
    let (_, _, h4) =
      >>=-eq-ok (refuse (not (str_eq chunk.object_key (log_object_key w.job chunk))) conflict) _
        h3 in
    let ((a, s), delivered, last) =
      >>=-eq-ok (deliver_chunk now chunk (locked_stream chunk d.execution.streams)) _ h4 in
    finish a s delivered last
  where
    finish :
        (a : Bool) (s : StreamRow)
        → deliver_chunk now chunk (locked_stream chunk d.execution.streams) ≡ ok (a, s)
        → ◌≡◌ {A = Result Error (Bool × Work)}
            (ok (a, delivered_work chunk a s w d))
            (ok (again, w'))
        → (s : StreamRow) × (deliver_chunk now chunk (locked_stream chunk d.execution.streams)
            ≡ ok (again, s))
          × (w' ≡ delivered_work chunk again s w d)
    finish a s delivered last =
        let same : a ≡ again = ground arith in (s, rw same at delivered, ground arith)

-- A delivery of a log chunk keeps the tables sound, and evolves the rows of the jobs.
pub commit_log_chunk-WorksEvolve :
    (identity : AgentIdentity) (chunk : LogChunk) (now : ℕ) (db db' : Database) (again : Bool)
    → IsSound db.works
    → commit_log_chunk identity chunk now db ≡ ok (again, db')
    → WorksEvolve db.works db'.works
unfolding commit_log_chunk
commit_log_chunk-WorksEvolve identity chunk now db db' again s h =
    let (_, _, h1) = >>=-eq-ok (refuse (is_malformed chunk) conflict) _ h in
    let (w, found, h2) =
      >>=-eq-ok
        (or_fail (find? (has_execution chunk.execution_id identity.namespace_id) db.works)
          not_found)
        _ h1 in
    let (d, e, h3) = >>=-eq-ok (or_fail w.dispatch not_found) _ h2 in
    let ((a, w'), delivered, last) = >>=-eq-ok (deliver_to_execution identity chunk now w d) _ h3 in
    let (t, _, same) = deliver_to_execution-eq-ok identity chunk now w w' d a delivered in
    let step = delivered_work-Evolves chunk a t w d (or_fail-eq-ok w.dispatch not_found e) in
    rw (ok-works a again _ db' last) (
      put_found (has_execution chunk.execution_id identity.namespace_id) db.works w w' s
        (or_fail-eq-ok _ not_found found) (rw (sym same) at step))
