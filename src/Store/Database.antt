-- ===== src/Store/Database.antt =====
-- The tables of internal/store/postgres that transactions share, and the reads and writes of a
-- row by its primary key.
pub mod Evolution
use jobman_control.Prelude.{ℕ, String, Bool, Option, List, find?, str_eq, update_rows, true, false}
use jobman_control.Store.Rows.{ExecutionBackend, ArtifactStoreBinding, Work, Outcome, JobPhase}
use jobman_control.Store.Idempotency.{Reservation}

pub data FailurePolicy : Type 0 where
  continue fail_fast : FailurePolicy

pub data ArrayMode : Type 0 where
  individual slurm_array : ArrayMode

-- collections
pub record CollectionRow : Type 0 where
  pub id : String
  pub max_active : ℕ
  pub array_mode : ArrayMode
  pub failure_policy : FailurePolicy
  pub revision : ℕ

pub data UnsatisfiedPolicy : Type 0 where
  skip cancel blocked : UnsatisfiedPolicy

-- graphs
pub record GraphRow : Type 0 where
  pub id : String
  pub namespace_id : String
  pub owner_principal_id : String
  pub max_active : ℕ
  pub unsatisfied_policy : UnsatisfiedPolicy
  pub revision : ℕ

pub data Predicate : Type 0 where
  success failure any_terminal outcomes : Predicate

-- graph_edges
pub record EdgeRow : Type 0 where
  pub upstream_job_id : String
  pub downstream_job_id : String
  pub predicate : Predicate
  pub outcomes : List Outcome

-- namespace_policies
pub record PolicyRow : Type 0 where
  pub namespace_id : String
  pub max_active_jobs : ℕ
  pub last_dispatched_at : Option ℕ

-- targets; only the state `active` is told apart
pub record TargetRow : Type 0 where
  pub id : String
  pub is_active : Bool

-- target_generations
pub record GenerationRow : Type 0 where
  pub id : String
  pub execution_backend : ExecutionBackend
  pub log_store : Option ArtifactStoreBinding

-- agent_sessions
pub record SessionRow : Type 0 where
  pub is_revoked : Bool
  pub expires_at : ℕ

-- agents with their sessions; only the status `active` is told apart
pub record AgentRow : Type 0 where
  pub id : String
  pub namespace_id : String
  pub target_id : String
  pub target_generation_id : String
  pub principal_id : String
  pub is_active : Bool
  pub accepting_assignments : Bool
  pub last_capability_at : Option ℕ
  pub execution_backends : List String
  pub runtimes : List String
  pub operating_system : String
  pub architecture : String
  pub capabilities : List String
  pub sessions : List SessionRow
  pub created_at : ℕ

pub record Database : Type 0 where
  pub reconciliation_hold : Bool
  pub policies : List PolicyRow
  pub targets : List TargetRow
  pub generations : List GenerationRow
  pub agents : List AgentRow
  pub works : List Work
  pub collections : List CollectionRow
  pub graphs : List GraphRow
  pub edges : List EdgeRow
  pub reservations : List Reservation

abbrev pub has_id : String → Work → Bool
has_id id w = str_eq w.job.id id

-- The row of a job.
unfoldable pub find_job : String → List Work → Option Work
find_job id ws = find? (has_id id) ws

-- A row written back under its primary key.
unfoldable pub put_work : Work → List Work → List Work
put_work w ws = update_rows (has_id w.job.id) (λ _. w) ws

abbrev pub job_is_accepted : JobPhase → Bool
job_is_accepted JobPhase.accepted = true
job_is_accepted _ = false

abbrev pub job_is_terminal : JobPhase → Bool
job_is_terminal JobPhase.terminal = true
job_is_terminal _ = false
