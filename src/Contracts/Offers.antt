-- ===== src/Contracts/Offers.antt =====
-- contracts/jobman/v1alpha1/agent_contracts.go: acceptances and launch authorizations, desired actions and
-- their acknowledgements. The identifiers that the
-- source tests in the order of a map are tested in one order.
use jobman_control.Contracts.Requests.Seal.{Codec, Sealed, seal_document}
use jobman_control.Contracts.Executions.{check_id, integer_leb}
use jobman_control.Contracts.Workloads.{Host}
use jobman_control.Contracts.Workloads.Parts.{each}
use jobman_control.Contracts.Names.{Reason, matches_id, matches_digest}
use jobman_control.Prelude.{
  String, Bool, ◌&&◌, ◌||◌, not, [], ◌∷◌, str_eq, codes, ℤ, pos, Result, ◌>>=◌, ◌>>◌, refuse,
  or_fail,
}

-- What is asked of a time.Time: whether it is the zero time, in UTC, and without a monotonic reading.
pub record Instant : Type 0 where
  pub is_zero_time : Bool
  pub in_utc : Bool
  pub is_rounded : Bool

abbrev pub valid_protocol_time : Instant → Bool
valid_protocol_time t = not t.is_zero_time && t.in_utc && t.is_rounded

pub record AgentAcceptance : Type 0 where
  pub api_version : String
  pub kind : String
  pub delivery_id : String
  pub execution_id : String
  pub agent_id : String
  pub target_generation_id : String
  pub effective_execution_digest : String

unfoldable pub validate_agent_acceptance : AgentAcceptance → Result Reason (Unit {0})
unfolding matches_id matches_digest each
validate_agent_acceptance a = do
  refuse (not (str_eq a.api_version "jobman/v1alpha1") || not (str_eq a.kind "AgentAcceptance"))
      "unsupported contract"
  each check_id (a.delivery_id ∷ a.execution_id ∷ a.agent_id ∷ a.target_generation_id ∷ [])
  refuse (not (matches_digest (codes a.effective_execution_digest)))
      "invalid effective execution digest"

unfoldable pub seal_agent_acceptance :
    Host → Codec AgentAcceptance → AgentAcceptance → Result Reason (Sealed AgentAcceptance)
unfolding validate_agent_acceptance seal_document
seal_agent_acceptance host codec value = do
  cloned ← or_fail (codec.clone value) "clone"
  validate_agent_acceptance cloned
  seal_document host codec [] cloned

pub record LaunchAuthorization : Type 0 where
  pub api_version : String
  pub kind : String
  pub authorization_id : String
  pub execution_id : String
  pub agent_id : String
  pub revision : ℤ
  pub accepted_at : Instant
  pub target_generation_id : String
  pub effective_execution_digest : String

unfoldable pub validate_launch_authorization : LaunchAuthorization → Result Reason (Unit {0})
unfolding matches_id matches_digest each
validate_launch_authorization a = do
  refuse (not (str_eq a.api_version "jobman/v1alpha1") || not (str_eq a.kind "LaunchAuthorization"))
      "unsupported contract"
  each check_id (a.authorization_id ∷ a.execution_id ∷ a.agent_id ∷ a.target_generation_id ∷ [])
  refuse (not (integer_leb (pos 1) a.revision) || not (valid_protocol_time a.accepted_at))
      "invalid acceptance metadata"
  refuse (not (matches_digest (codes a.effective_execution_digest)))
      "invalid effective execution digest"

pub record DesiredAction : Type 0 where
  pub api_version : String
  pub kind : String
  pub action_id : String
  pub execution_id : String
  pub agent_id : String
  pub revision : ℤ
  pub requested_at : Instant
  pub action_type : String

unfoldable pub validate_desired_action : DesiredAction → Result Reason (Unit {0})
unfolding matches_id each
validate_desired_action a = do
  refuse (not (str_eq a.api_version "jobman/v1alpha1") || not (str_eq a.kind "DesiredAction"))
      "unsupported contract"
  each check_id (a.action_id ∷ a.execution_id ∷ a.agent_id ∷ [])
  refuse
      (not (integer_leb (pos 1) a.revision)
        || not (valid_protocol_time a.requested_at)
        || not (str_eq a.action_type "cancel"))
      "invalid action"

pub record ActionAcknowledgement : Type 0 where
  pub api_version : String
  pub kind : String
  pub action_id : String
  pub execution_id : String
  pub agent_id : String
  pub revision : ℤ
  pub observed_at : Instant

unfoldable pub validate_action_acknowledgement : ActionAcknowledgement → Result Reason (Unit {0})
unfolding matches_id each
validate_action_acknowledgement a = do
  refuse
      (not (str_eq a.api_version "jobman/v1alpha1") || not (str_eq a.kind "ActionAcknowledgement"))
      "unsupported contract"
  each check_id (a.action_id ∷ a.execution_id ∷ a.agent_id ∷ [])
  refuse (not (integer_leb (pos 1) a.revision) || not (valid_protocol_time a.observed_at))
      "invalid acknowledgement metadata"
