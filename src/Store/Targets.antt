-- ===== src/Store/Targets.antt =====
-- internal/store/postgres/targets.go: the transaction of UpdateTargetState, with
-- ValidateTargetStateChange of internal/domain/target.go.
pub mod Lifecycle
pub mod Retirement
pub mod Redelivery
use jobman_control.Prelude.{
  ℕ, ◌+◌, String, Bool, true, false, ◌&&◌, ◌||◌, not, List, [], ◌∷◌, str_eq, ◌==◌, ltb, Result, ok,
  ◌>>=◌, ◌>>◌, refuse, or_fail, any, find?, update_rows, if◌then◌else◌,
}
use Prim.Native.String.{◌++◌ as concat}
use jobman_control.Store.Rows.{Error, forbidden, not_found, conflict, invalid, AuditEvent}
use jobman_control.Store.Transactions.{Authorization, permits}
use jobman_control.Store.Idempotency.{
  Reservation, Key, Reserved, fresh, replayed, reserve_idempotency, complete_idempotency,
}

-- targets, without the columns that this transaction neither reads nor writes
pub record Target : Type 0 where
  pub id : String
  pub namespace_id : String
  pub name : String
  pub state : String
  pub revision : ℕ

pub record TargetStateChange : Type 0 where
  pub expected_revision : ℕ
  pub state : String

-- The tables of the transaction; the audit events are the newest first.
pub record TargetTables : Type 0 where
  pub targets : List Target
  pub reservations : List Reservation
  pub audits : List AuditEvent

abbrev pub validate_target_state_change : TargetStateChange → Result Error (Unit {0})
validate_target_state_change change = do
  refuse (ltb change.expected_revision 1) invalid
  refuse (not (any (str_eq change.state) ("active" ∷ "draining" ∷ "disabled" ∷ "retired" ∷ [])))
      invalid

-- The literal map of validTargetStateTransition; a state that it does not name has no successors.
abbrev pub allowed_states : String → List String
allowed_states current =
    if str_eq current "active"
    then "draining" ∷ "disabled" ∷ []
    else if str_eq current "draining"
    then "active" ∷ "disabled" ∷ "retired" ∷ []
    else if str_eq current "disabled"
    then "active" ∷ "retired" ∷ []
    else []

unfoldable pub valid_target_state_transition : String → String → Bool
valid_target_state_transition current requested =
    str_eq current requested || any (str_eq requested) (allowed_states current)

abbrev pub has_name : String → String → Target → Bool
has_name namespace_id name t = str_eq t.namespace_id namespace_id && str_eq t.name name

abbrev pub has_target_id : String → String → Target → Bool
has_target_id namespace_id id t = str_eq t.namespace_id namespace_id && str_eq t.id id

abbrev pub set_state : String → Target → Target
set_state state t = record t { state = state; revision = t.revision + 1 }

abbrev pub target_state_key : Authorization → String → String → Key
target_state_key authorization name key = record {
  namespace_id = authorization.namespace_id;
  principal_id = authorization.principal_id;
  operation = concat "targets.state:" name;
  idempotency_key = key;
}

abbrev pub target_state_audit : Authorization → String → String → AuditEvent
target_state_audit authorization id digest = record {
  actor_kind = "principal";
  actor_id = authorization.principal_id;
  action = "target.state_changed";
  resource_type = "target";
  resource_id = id;
  request_digest = digest;
}

-- getTargetByID
abbrev pub get_target : String → String → List Target → Result Error Target
get_target namespace_id id ts = or_fail (find? (has_target_id namespace_id id) ts) not_found

-- The rest of the transaction once the key is reserved: the target, whether it is a replay, and
-- the tables.
unfoldable pub change_target_state :
    Authorization
    → String
    → String
    → String
    → TargetStateChange
    → Target
    → TargetTables
    → Reserved
    → Result Error (Target × Bool × TargetTables)
unfolding valid_target_state_transition
change_target_state authorization name key digest change t db (replayed id) = do
  target ← get_target authorization.namespace_id id db.targets
  ok (target, true, db)
change_target_state authorization name key digest change t db Reserved.fresh = do
  refuse
      (not (t.revision == change.expected_revision)
        || not (valid_target_state_transition t.state change.state))
      conflict
  let targets =
      update_rows (has_target_id authorization.namespace_id t.id) (set_state change.state)
        db.targets
  rs ← complete_idempotency (target_state_key authorization name key) t.id 200 db.reservations
  target ← get_target authorization.namespace_id t.id targets
  ok (
    target,
    false,
    record {
      targets = targets;
      reservations = rs;
      audits = target_state_audit authorization t.id digest ∷ db.audits;
    },
  )

unfoldable pub update_target_state :
    Authorization
    → String
    → String
    → String
    → TargetStateChange
    → TargetTables
    → Result Error (Target × Bool × TargetTables)
unfolding change_target_state
update_target_state authorization name key digest change db = do
  validate_target_state_change change
  refuse (not (permits authorization "targets.operate")) forbidden
  t ← or_fail (find? (has_name authorization.namespace_id name) db.targets) not_found
  (reserved, rs) ←
      reserve_idempotency (target_state_key authorization name key) digest "target" 200
        db.reservations
  change_target_state authorization name key digest change t (record db { reservations = rs })
      reserved
