-- ===== src/Store/Rows/Values.antt =====
-- The states, event types and outcomes of internal/domain, and the small records that rows and
-- requests share.
use jobman_control.Prelude.{ℕ, String, Bool, Option}

-- internal/domain/job.go: the errors that callers distinguish, then those that reach them as text.
-- `out_of_fuel` is of the model alone, and is never returned.
pub data Error : Type 0 where
  forbidden authorization_unavailable not_found idempotency_conflict conflict : Error
  invalid_placement unauthenticated quota_exceeded : Error
  invalid incomplete_idempotency lost_idempotency check_violation duplicate_key out_of_fuel : Error

pub data Outcome : Type 0 where
  success failure cancelled timed_out aborted lost : Outcome

pub data JobPhase : Type 0 where
  accepted assigning accepted_execution running terminal : JobPhase

pub data RunPhase : Type 0 where
  assigning accepted running terminal : RunPhase

pub data ExecutionPhase : Type 0 where
  planned accepted running terminal : ExecutionPhase

pub data AssignmentState : Type 0 where
  offered accepted withdrawn : AssignmentState

pub data DesiredState : Type 0 where
  run cancel : DesiredState

pub data ExecutionBackend : Type 0 where
  subprocess slurm : ExecutionBackend

pub data Confidence : Type 0 where
  current uncertain lost stale : Confidence

-- `other` is any text that the switches do not name.
pub data EventType : Type 0 where
  process_started process_completed : EventType
  scheduler_uncertain scheduler_submitted scheduler_observed scheduler_completed : EventType
  other : String → EventType

pub data ActionState : Type 0 where
  pending acknowledged : ActionState

pub data StreamState : Type 0 where
  capturing complete : StreamState

-- audit_events without the `details` document
pub record AuditEvent : Type 0 where
  pub actor_kind : String
  pub actor_id : String
  pub action : String
  pub resource_type : String
  pub resource_id : String
  pub request_digest : String

-- A declared output; `destination` is what url.Parse makes of its text, `none` on an error.
pub record Url : Type 0 where
  pub host : String
  pub path : String

pub record OutputArtifact : Type 0 where
  pub name : String
  pub destination : Option Url
  pub required : Bool

pub record ArtifactStoreBinding : Type 0 where
  pub name : String
  pub version : ℕ

pub record PublishedArtifact : Type 0 where
  pub name : String
  pub store_name : String
  pub store_version : ℕ
  pub object_key : String
  pub byte_length : ℕ
  pub checksum : String
  pub published_at : ℕ
