-- ===== src/Contracts/Examples/Fixtures.antt =====
-- A workload as it is sent and as it is sealed, a graph of such jobs, and an assignment.
use jobman_control.Contracts.Workloads.{Host, Workload, Artifacts, InputArtifact}
use jobman_control.Contracts.Workloads.Seal.{SealedWorkload}
use jobman_control.Contracts.Requests.{Child, GraphEdge, GraphRequest}
use jobman_control.Contracts.Requests.Seal.{Codec}
use jobman_control.Contracts.Executions.{EffectiveExecution, AgentAssignment}
use jobman_control.Contracts.Offers.{Instant}
use jobman_control.Contracts.Events.{ExecutionEvent}
use jobman_control.Contracts.Json.{open_object, close_object}
use jobman_control.Prelude.{
  String, true, false, if◌then◌else◌, str_eq, List, [], ◌∷◌, some, none, pos,
}

abbrev pub host : Host
host = record {
  parse_duration = λ s. if str_eq s "1h" then some (pos 3600000000000) else none;
  parse_url = λ s. some (record {
    scheme = "artifact";
    host = "store";
    has_user = false;
    raw_query = "";
    fragment = "";
    path = "/a";
  });
  tokens = λ s. some (open_object ∷ close_object ∷ []);
  marshal = λ v. "{}";
  marshal_workload = λ w. some "{}";
  clone_workload = λ w. some w;
  sha256_hex = λ s. "0000000000000000000000000000000000000000000000000000000000000000";
}

abbrev pub input : String → InputArtifact
input name = record {
  name = name;
  source = "artifact://store/a";
  target = "inputs:/a";
  checksum = "";
}

abbrev pub artifacts : Artifacts
artifacts = record {
  inputs = input "first" ∷ input "second" ∷ [];
  outputs =
      record {
        name = "result";
        source = "outputs:/a";
        destination = "artifact://store/a";
        required = true;
      }
      ∷ [];
}

-- What a client sends: fields left empty, an extension with a blank in it, outputs out of order.
abbrev pub sent : Workload
sent = record {
  api_version = "jobman/v1alpha1";
  kind = "Workload";
  metadata = record { name = "build"; description = ""; labels = []; annotations = [] };
  spec = record {
    command = record { executable = "make"; args = "all" ∷ []; shell = none };
    working_directory = "";
    environment = none;
    resources = none;
    runtime = record { kind = ""; container = none };
    artifacts =
        some (record { inputs = input "second" ∷ input "first" ∷ []; outputs = artifacts.outputs });
    policy = record {
      run_timeout = "1h";
      retry = record { max_runs = pos 0; backoff = "" };
      duplicate_risk = "";
    };
    requirements = some (record { operating_systems = []; architectures = []; capabilities = [] });
    extensions = ("site", "{ }") ∷ [];
  };
}

abbrev pub normal : Workload
normal = record sent {
  spec = record sent.spec {
    working_directory = "workspace:/";
    runtime = record { kind = "native"; container = none };
    artifacts = some artifacts;
    policy = record {
      run_timeout = "1h";
      retry = record { max_runs = pos 1; backoff = "" };
      duplicate_risk = "reject";
    };
    requirements = none;
    extensions = ("site", "{}") ∷ [];
  };
}

abbrev pub sealed : SealedWorkload
sealed = record {
  document = normal;
  canonical_json = "{}";
  digest = "sha256:0000000000000000000000000000000000000000000000000000000000000000";
}

abbrev pub node : String → Child
node name = record {
  name = name;
  workload = record { digest = sealed.digest; document = normal };
  placement = record { target = "cluster"; partition = "" };
}

abbrev pub after : String → String → GraphEdge
after from to = record { from = from; to = to; predicate = "success"; outcomes = [] }

abbrev pub graph : List GraphEdge → GraphRequest
graph edges = record {
  api_version = "jobman/v1alpha1";
  kind = "GraphRequest";
  metadata = record { namespace = "team"; name = "nightly"; labels = [] };
  nodes = node "build" ∷ node "test" ∷ node "deploy" ∷ [];
  edges = edges;
  max_active = pos 1;
  unsatisfied_policy = "skip";
}

abbrev pub chain : List GraphEdge
chain = after "build" "test" ∷ []

abbrev pub fork : List GraphEdge
fork = after "build" "test" ∷ after "build" "deploy" ∷ []

abbrev pub plain : {A : Type 0} → Codec A
plain = record { clone = λ a. some a; encode = λ a. some "{}" }

abbrev pub some_id : String
some_id = "00000000-0000-4000-8000-000000000000"

abbrev pub execution : EffectiveExecution
execution = record {
  api_version = "jobman/v1alpha1";
  kind = "EffectiveExecution";
  metadata = record {
    execution_id = some_id;
    run_id = some_id;
    job_id = some_id;
    namespace = "team";
    slurm_array = none;
  };
  workload = record { digest = ""; document = sent };
  placement = record {
    target_id = some_id;
    target_generation_id = some_id;
    target = "cluster";
    partition = "";
    execution_backend = "slurm";
  };
  artifact_stores =
      record { name = "store"; version = pos 1 } ∷ record { name = "other"; version = pos 2 } ∷ [];
}

abbrev pub assignment : AgentAssignment
assignment = record {
  api_version = "jobman/v1alpha1";
  kind = "AgentAssignment";
  delivery_id = some_id;
  agent_id = some_id;
  effective_execution_digest = "";
  effective_execution = execution;
}

abbrev pub now : Instant
now = record { is_zero_time = false; in_utc = true; is_rounded = true }

abbrev pub finished : ExecutionEvent
finished = record {
  api_version = "jobman/v1alpha1";
  kind = "ExecutionEvent";
  event_id = some_id;
  execution_id = some_id;
  agent_id = some_id;
  sequence = pos 3;
  observed_at = now;
  event_type = "scheduler.completed";
  native_id = "4711";
  scheduler = some (record { backend = "slurm"; state = "completed"; reason = ""; cluster = "" });
  result =
      some
        (record { outcome = "success"; exit_code = some (pos 0); signal = ""; failure_code = "" });
  artifacts = [];
}
