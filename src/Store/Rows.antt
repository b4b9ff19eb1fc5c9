-- ===== src/Store/Rows.antt =====
-- The rows of internal/store/postgres/migrations that the modelled transactions read and write. A
-- job is kept with the one run, execution and assignment that refer to it (run number 1,
-- executions_one_per_run, assignments_execution_unique). A time is a number; a document is a text.
mod Values
mod Requests
pub use Values.*
pub use Requests.*
use jobman_control.Prelude.{ℕ, String, Bool, Option, List}

-- The parts of a job's workload document that the coordinator and the event stream read.
pub record WorkloadDocument : Type 0 where
  pub runtime_kind : String
  pub operating_systems : List String
  pub architectures : List String
  pub capabilities : List String
  pub outputs : List OutputArtifact

pub record Job : Type 0 where
  pub id : String
  pub namespace_id : String
  pub namespace : String
  pub owner_principal_id : String
  pub target_id : String
  pub target_generation_id : String
  pub workload : WorkloadDocument
  pub resolved_artifact_stores : List ArtifactStoreBinding
  pub created_at : ℕ
  pub phase : JobPhase
  pub desired_state : DesiredState
  pub outcome : Option Outcome
  pub revision : ℕ
  pub collection_id : Option String
  pub collection_index : ℕ
  pub graph_id : Option String
  pub graph_index : ℕ
  pub graph_disposition : Option String

pub record Run : Type 0 where
  pub id : String
  pub phase : RunPhase
  pub desired_state : DesiredState
  pub outcome : Option Outcome

-- One log chunk of a stream: log_chunks without the stream's key.
pub record ChunkRow : Type 0 where
  pub sequence : ℕ
  pub object_key : String
  pub byte_offset : ℕ
  pub byte_length : ℕ
  pub checksum : String
  pub captured_at : ℕ
  pub complete : Bool
  pub truncated : Bool
  pub document_digest : String
  pub document : String

-- log_streams with its chunks in the order of their primary key
pub record StreamRow : Type 0 where
  pub stream : String
  pub store_name : String
  pub store_version : ℕ
  pub state : StreamState
  pub byte_length : ℕ
  pub last_sequence : ℕ
  pub truncated : Bool
  pub completed_at : Option ℕ
  pub chunks : List ChunkRow

pub record EventRow : Type 0 where
  pub event_id : String
  pub agent_id : String
  pub source_sequence : ℕ
  pub event_type : EventType
  pub observed_at : ℕ
  pub document_digest : String
  pub document : String

pub record ActionRow : Type 0 where
  pub id : String
  pub agent_id : String
  pub revision : ℕ
  pub state : ActionState
  pub delivery_count : ℕ
  pub acknowledged_at : Option ℕ

pub record Native : Type 0 where
  pub backend : Option String
  pub state : Option String
  pub reason : Option String
  pub cluster : Option String
  pub observed_at : Option ℕ

-- executions joined with its target generation; the decoded effective specification is reduced to
-- the outputs and artifact stores that are read again.
pub record Execution : Type 0 where
  pub id : String
  pub namespace_id : String
  pub target_generation_id : String
  pub agent_id : String
  pub phase : ExecutionPhase
  pub created_at : ℕ
  pub effective_spec_digest : String
  pub outputs : List OutputArtifact
  pub artifact_stores : List ArtifactStoreBinding
  pub execution_backend : ExecutionBackend
  pub log_store : Option ArtifactStoreBinding
  pub revision : ℕ
  pub accepted_at : Option ℕ
  pub last_event_sequence : ℕ
  pub native_id : Option String
  pub native : Native
  pub outcome : Option Outcome
  pub process_result : Option String
  pub observation_confidence : Confidence
  pub events : List EventRow
  pub artifacts : List PublishedArtifact
  pub streams : List StreamRow
  pub cancel_action : Option ActionRow

pub record Assignment : Type 0 where
  pub id : String
  pub namespace_id : String
  pub agent_id : String
  pub state : AssignmentState
  pub accepted_at : Option ℕ
  pub acceptance_digest : Option String
  pub acceptance_document : Option String

-- What the coordinator inserts when it assigns a job.
pub record Dispatch : Type 0 where
  pub run : Run
  pub execution : Execution
  pub assignment : Assignment

-- A job, its dispatch, and the audit events about it, newest first.
pub record Work : Type 0 where
  pub job : Job
  pub dispatch : Option Dispatch
  pub audits : List AuditEvent
