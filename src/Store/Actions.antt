-- ===== src/Store/Actions.antt =====
-- internal/store/postgres/executions.go: AcknowledgeDesiredAction. The desired action of an
-- execution is kept in its row; its namespace is that of the execution.
pub mod Again
use jobman_control.Store.Database.{Database}
use jobman_control.Store.Rows.{
  ActionState, AgentIdentity, Dispatch, ActionRow, Work, Execution, Error, not_found,
}
use jobman_control.Prelude.{
  ℕ, String, Bool, true, false, ◌&&◌, not, Option, none, some, if◌then◌else◌, str_eq, ◌==◌, Result,
  ok, err, any, find?, update_rows,
}

-- internal/domain/control.go: ActionAcknowledgement
pub record Acknowledgement : Type 0 where
  pub action_id : String
  pub execution_id : String
  pub agent_id : String
  pub revision : ℕ
  pub observed_at : ℕ

-- The WHERE clause, but for the state.
unfoldable pub names_action : AgentIdentity → Acknowledgement → Execution → ActionRow → Bool
names_action identity ack e action =
    str_eq action.id ack.action_id
    && str_eq e.namespace_id identity.namespace_id
    && str_eq e.id ack.execution_id
    && str_eq action.agent_id identity.agent_id
    && action.revision == ack.revision

abbrev pub is_pending : ActionState → Bool
is_pending ActionState.pending = true
is_pending ActionState.acknowledged = false

abbrev pub action_of : Work → Option (Execution × ActionRow)
action_of w = elim w.dispatch [
  | none ↦ none
  | some d ↦ elim d.execution.cancel_action [ none ↦ none | some a ↦ some (d.execution, a) ]
]

unfoldable pub has_action : AgentIdentity → Acknowledgement → Work → Bool
unfolding names_action
has_action identity ack w = elim (action_of w) [
  | none ↦ false
  | some (e, a) ↦ names_action identity ack e a
]

unfoldable pub has_pending_action : AgentIdentity → Acknowledgement → Work → Bool
unfolding names_action
has_pending_action identity ack w = elim (action_of w) [
  | none ↦ false
  | some (e, a) ↦ names_action identity ack e a && is_pending a.state
]

acknowledge_row : Acknowledgement → ActionRow → ActionRow
acknowledge_row ack a = record a {
  state = ActionState.acknowledged;
  acknowledged_at = some ack.observed_at;
}

acknowledge_dispatch : Acknowledgement → Dispatch → Dispatch
unfolding acknowledge_row
acknowledge_dispatch ack d = record d {
  execution = record d.execution {
    cancel_action = elim d.execution.cancel_action [
      | none ↦ none
      | some a ↦ some (acknowledge_row ack a)
    ];
  };
}

unfoldable pub acknowledge_work : Acknowledgement → Work → Work
unfolding acknowledge_dispatch
acknowledge_work ack w = record w {
  dispatch = elim w.dispatch [ none ↦ none | some d ↦ some (acknowledge_dispatch ack d) ];
}

abbrev pub state_is_acknowledged : Work → Bool
state_is_acknowledged w = elim (action_of w) [
  | none ↦ false
  | some (e, a) ↦ not (is_pending a.state)
]

-- The flag says that the action was acknowledged before.
unfoldable pub acknowledge_desired_action :
    AgentIdentity → Acknowledgement → Database → Result Error (Bool × Database)
unfolding has_action has_pending_action acknowledge_work
acknowledge_desired_action identity ack db =
    if any (has_pending_action identity ack) db.works
    then ok (
      false,
      record db {
        works = update_rows (has_pending_action identity ack) (acknowledge_work ack) db.works;
      },
    )
    else elim (find? (has_action identity ack) db.works) [
      | none ↦ err not_found
      | some w ↦ ok (state_is_acknowledged w, db)
    ]
