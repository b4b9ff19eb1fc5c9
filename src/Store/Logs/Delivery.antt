-- ===== src/Store/Logs/Delivery.antt =====
-- internal/store/postgres/logs.go: the transaction of CommitLogChunk around the stream that it locks.
use jobman_control.Store.Acceptance.{is_planned}
use jobman_control.Store.Database.{Database, put_work}
use jobman_control.Store.Transactions.{has_execution}
use jobman_control.Store.Rows.{
  AgentIdentity, LogChunk, StreamRow, Work, AuditEvent, Dispatch, Error, forbidden, not_found,
}
use jobman_control.Store.Logs.{new_stream, is_capturing, conflict, deliver_chunk}
use jobman_control.Store.LogKeys.{is_malformed, approved_store, log_object_key}
use jobman_control.Prelude.{
  ℕ, String, Bool, ◌||◌, not, none, some, List, [], ◌∷◌, ◌++◌, if◌then◌else◌, str_eq, Result, ok,
  ◌>>=◌, ◌>>◌, refuse, or_fail, any, find?, update_rows,
}

abbrev pub is_stream : String → StreamRow → Bool
is_stream name s = str_eq s.stream name

-- `INSERT … ON CONFLICT DO NOTHING`, then the locked row.
unfoldable pub locked_stream : LogChunk → List StreamRow → StreamRow
unfolding new_stream
locked_stream chunk ss = elim (find? (is_stream chunk.stream) ss) [
  | none ↦ new_stream chunk
  | some s ↦ s
]

unfoldable pub put_stream : StreamRow → List StreamRow → List StreamRow
put_stream s ss =
    if any (is_stream s.stream) ss
    then update_rows (is_stream s.stream) (λ _. s) ss
    else ss ++ (s ∷ [])

log_completed : LogChunk → AuditEvent
log_completed chunk = record {
  actor_kind = "agent";
  actor_id = chunk.agent_id;
  action = "log.completed";
  resource_type = "execution";
  resource_id = chunk.execution_id;
  request_digest = chunk.document_digest;
}

abbrev completion_audit : LogChunk → Bool → StreamRow → List AuditEvent
completion_audit chunk again s =
    if again || is_capturing s.state then [] else log_completed chunk ∷ []

unfoldable pub delivered_work : LogChunk → Bool → StreamRow → Work → Dispatch → Work
unfolding put_stream log_completed
delivered_work chunk again s w d = record w {
  dispatch =
      some (record d {
        execution = record d.execution { streams = put_stream s d.execution.streams };
      });
  audits = completion_audit chunk again s ++ w.audits;
}

unfoldable pub deliver_to_execution :
    AgentIdentity → LogChunk → ℕ → Work → Dispatch → Result Error (Bool × Work)
unfolding locked_stream delivered_work
deliver_to_execution identity chunk now w d = do
  refuse
      (not (str_eq d.execution.agent_id identity.agent_id)
        || not (str_eq chunk.agent_id identity.agent_id))
      forbidden
  refuse (not (approved_store chunk d.execution.log_store)) forbidden
  refuse (is_planned d.execution.phase) conflict
  refuse (not (str_eq chunk.object_key (log_object_key w.job chunk))) conflict
  (again, s) ← deliver_chunk now chunk (locked_stream chunk d.execution.streams)
  ok (again, delivered_work chunk again s w d)

unfoldable pub commit_log_chunk :
    AgentIdentity → LogChunk → ℕ → Database → Result Error (Bool × Database)
unfolding deliver_to_execution is_malformed has_execution
commit_log_chunk identity chunk now db = do
  refuse (is_malformed chunk) conflict
  w ← or_fail (find? (has_execution chunk.execution_id identity.namespace_id) db.works) not_found
  d ← or_fail w.dispatch not_found
  (again, w') ← deliver_to_execution identity chunk now w d
  ok (again, record db { works = put_work w' db.works })
