-- ===== src/Store/Rows/Requests.antt =====
-- internal/domain/control.go: the values that callers hand to the transactions and get back.
use jobman_control.Store.Rows.Values.{Outcome, EventType, PublishedArtifact}
use jobman_control.Prelude.{ℕ, String, Bool, Option, List, ℤ}

pub record AgentIdentity : Type 0 where
  pub agent_id : String
  pub namespace_id : String
  pub target_generation_id : String

pub record Acceptance : Type 0 where
  pub delivery_id : String
  pub execution_id : String
  pub agent_id : String
  pub target_generation_id : String
  pub effective_execution_digest : String
  pub request_digest : String
  pub request_document : String

pub record LaunchAuthorization : Type 0 where
  pub authorization_id : String
  pub execution_id : String
  pub agent_id : String
  pub target_generation_id : String
  pub effective_execution_digest : String
  pub revision : ℕ
  pub accepted_at : ℕ
  pub replayed : Bool

-- `outcome` is `none` for the empty text and for a text that no outcome is spelled by. The last
-- three fields are what the document's `spec` holds.
pub record ExecutionObservation : Type 0 where
  pub event_id : String
  pub execution_id : String
  pub agent_id : String
  pub sequence : ℕ
  pub observed_at : ℕ
  pub event_type : EventType
  pub native_id : String
  pub outcome : Option Outcome
  pub scheduler_backend : String
  pub scheduler_state : String
  pub scheduler_reason : String
  pub scheduler_cluster : String
  pub document_digest : String
  pub document : String
  pub artifacts : List PublishedArtifact
  pub result_outcome : Option Outcome
  pub result : Option String

pub record LogChunk : Type 0 where
  pub execution_id : String
  pub agent_id : String
  pub stream : String
  pub sequence : ℤ
  pub store_name : String
  pub store_version : ℕ
  pub object_key : String
  pub byte_offset : ℤ
  pub byte_length : ℤ
  pub checksum : String
  pub captured_at : ℕ
  pub complete : Bool
  pub truncated : Bool
  pub document_digest : String
  pub document : String
