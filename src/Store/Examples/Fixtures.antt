-- ===== src/Store/Examples/Fixtures.antt =====
-- Small tables: a job that waits, one that is over, and an agent that may serve the first.
use jobman_control.Store.Database.Evolution.{IsSound}
use jobman_control.Store.Coordinator.Offer.{Identifiers}
use jobman_control.Store.Rows.{
  WorkloadDocument, Work, JobPhase, Error, Outcome, ExecutionBackend, Job, DesiredState,
  AgentIdentity, ExecutionObservation, Acceptance, EventType,
}
use jobman_control.Store.Database.{GenerationRow, Database, AgentRow}
use jobman_control.Prelude.{
  String, true, false, Option, none, some, [], ◌∷◌, Result, ok, refl, inl, inr,
}

abbrev pub plain_workload : WorkloadDocument
plain_workload = record {
  runtime_kind = "process";
  operating_systems = [];
  architectures = "amd64" ∷ [];
  capabilities = [];
  outputs = [];
}

abbrev pub job_row : String → JobPhase → Option Outcome → Job
job_row name p o = record {
  id = name;
  namespace_id = "n1";
  namespace = "physics";
  owner_principal_id = "p1";
  target_id = "t1";
  target_generation_id = "g1";
  workload = plain_workload;
  resolved_artifact_stores = [];
  created_at = 5;
  phase = p;
  desired_state = DesiredState.run;
  outcome = o;
  revision = 1;
  collection_id = none;
  collection_index = 0;
  graph_id = none;
  graph_index = 0;
  graph_disposition = none;
}

abbrev pub waiting : Work
waiting = record { job = job_row "j1" JobPhase.accepted none; dispatch = none; audits = [] }

abbrev pub finished : Work
finished = record {
  job = job_row "j2" JobPhase.terminal (some Outcome.cancelled);
  dispatch = none;
  audits = [];
}

abbrev pub generation : GenerationRow
generation = record { id = "g1"; execution_backend = ExecutionBackend.subprocess; log_store = none }

abbrev pub agent : AgentRow
agent = record {
  id = "a1";
  namespace_id = "n1";
  target_id = "t1";
  target_generation_id = "g1";
  principal_id = "p1";
  is_active = true;
  accepting_assignments = true;
  last_capability_at = some 1000;
  execution_backends = "subprocess" ∷ [];
  runtimes = "process" ∷ [];
  operating_system = "linux";
  architecture = "amd64";
  capabilities = [];
  sessions = record { is_revoked = false; expires_at = 5000 } ∷ [];
  created_at = 1;
}

abbrev pub tables : Database
tables = record {
  reconciliation_hold = false;
  policies = record { namespace_id = "n1"; max_active_jobs = 1; last_dispatched_at = none } ∷ [];
  targets = record { id = "t1"; is_active = true } ∷ [];
  generations = generation ∷ [];
  agents = agent ∷ [];
  works = waiting ∷ finished ∷ [];
  collections = [];
  graphs = [];
  edges = [];
  reservations = [];
}

abbrev pub drawn : Identifiers
drawn = record { run_id = "r1"; execution_id = "e1"; delivery_id = "d1" }

abbrev pub sealed_as : String → Work → GenerationRow → AgentRow → Identifiers → Result Error String
sealed_as digest w g a ids = ok digest

pub tables-IsSound : IsSound tables.works
tables-IsSound = record {
  fits = (
    record {
      job_phase = inl refl;
      waiting_outcome = λ _. refl;
      waiting_desire = λ _. refl;
      terminal_outcome = λ h. cc;
    },
    (
      record {
        job_phase = inr refl;
        waiting_outcome = λ h. cc;
        waiting_desire = λ h. cc;
        terminal_outcome = λ _. refl;
      },
      tt,
    ),
  );
  distinct = (refl, (refl, tt));
}

abbrev pub identity : AgentIdentity
identity = record { agent_id = "a1"; namespace_id = "n1"; target_generation_id = "g1" }

abbrev pub acceptance : Acceptance
acceptance = record {
  delivery_id = "d1";
  execution_id = "e1";
  agent_id = "a1";
  target_generation_id = "g1";
  effective_execution_digest = "sha256:0";
  request_digest = "sha256:1";
  request_document = "{}";
}

abbrev pub started : ExecutionObservation
started = record {
  event_id = "v1";
  execution_id = "e1";
  agent_id = "a1";
  sequence = 1;
  observed_at = 1300;
  event_type = EventType.process_started;
  native_id = "42";
  outcome = none;
  scheduler_backend = "";
  scheduler_state = "";
  scheduler_reason = "";
  scheduler_cluster = "";
  document_digest = "sha256:2";
  document = "{}";
  artifacts = [];
  result_outcome = none;
  result = none;
}
