-- ===== src/Contracts/Workloads/Normal.antt =====
-- contracts/jobman/v1alpha1/normalize.go: normalizeWorkload.
use jobman_control.Contracts.Workloads.{
  Host, Workload, WorkloadSpec, Environment, Resources, Runtime, ContainerRuntime, Artifacts,
  ExecutionPolicy, Requirements,
}
use jobman_control.Contracts.Json.{Json, Token, Malformed, canonical_value, object}
use jobman_control.Contracts.Names.{Reason}
use jobman_control.Contracts.Sorting.{sort}
use jobman_control.Contracts.Paths.{is_empty}
use jobman_control.Prelude.{
  String, Bool, true, false, ◌&&◌, Option, none, some, List, [], ◌∷◌, if◌then◌else◌, str_eq,
  text_lt, ℤ, pos, negsuc, Result, ok, err, ◌>>=◌, zero, suc,
}

abbrev pub default_text : String → String → String
default_text default value = if str_eq value "" then default else value

unfoldable pub empty_environment : Environment → Bool
empty_environment e = str_eq e.profile "" && is_empty e.values && is_empty e.secrets

unfoldable pub normalize_environment : Environment → Environment
normalize_environment e = record e { secrets = sort (λ a b. text_lt a.name b.name) e.secrets }

abbrev pub keep_environment : Environment → Option Environment
keep_environment e = if empty_environment e then none else some e

unfoldable pub normalize_optional_environment : Option Environment → Option Environment
unfolding empty_environment normalize_environment
normalize_optional_environment none = none
normalize_optional_environment (some e) = keep_environment (normalize_environment e)

abbrev pub is_zero : ℤ → Bool
is_zero (pos zero) = true
is_zero (pos (suc n)) = false
is_zero (negsuc n) = false

-- `*value == (Resources{})`
abbrev pub empty_resources : Resources → Bool
empty_resources r =
    is_zero r.cpu
    && str_eq r.memory ""
    && is_zero r.gpu
    && is_zero r.nodes
    && is_zero r.tasks
    && str_eq r.temporary_storage ""
    && str_eq r.wall_time ""

unfoldable pub normalize_resources : Option Resources → Option Resources
normalize_resources none = none
normalize_resources (some r) = if empty_resources r then none else some r

unfoldable pub normalize_container : ContainerRuntime → ContainerRuntime
normalize_container c = record c {
  pull_policy = default_text "if-not-present" c.pull_policy;
  network = default_text "restricted" c.network;
}

abbrev pub normalize_optional_container : Option ContainerRuntime → Option ContainerRuntime
normalize_optional_container none = none
normalize_optional_container (some c) = some (normalize_container c)

unfoldable pub normalize_runtime : Runtime → Runtime
unfolding normalize_container
normalize_runtime r = record {
  kind = default_text "native" r.kind;
  container = normalize_optional_container r.container;
}

abbrev pub keep_artifacts : Artifacts → Option Artifacts
keep_artifacts a = if is_empty a.inputs && is_empty a.outputs then none else some a

unfoldable pub sort_artifacts : Artifacts → Artifacts
sort_artifacts a = record {
  inputs = sort (λ x y. text_lt x.name y.name) a.inputs;
  outputs = sort (λ x y. text_lt x.name y.name) a.outputs;
}

unfoldable pub normalize_artifacts : Option Artifacts → Option Artifacts
unfolding sort_artifacts
normalize_artifacts none = none
normalize_artifacts (some a) = keep_artifacts (sort_artifacts a)

unfoldable pub normalize_policy : ExecutionPolicy → ExecutionPolicy
normalize_policy p = record p {
  retry = record p.retry {
    max_runs = if is_zero p.retry.max_runs then pos 1 else p.retry.max_runs;
  };
  duplicate_risk = default_text "reject" p.duplicate_risk;
}

unfoldable pub empty_requirements : Requirements → Bool
empty_requirements r =
    is_empty r.operating_systems && is_empty r.architectures && is_empty r.capabilities

abbrev pub keep_requirements : Requirements → Option Requirements
keep_requirements r = if empty_requirements r then none else some r

unfoldable pub sort_requirements : Requirements → Requirements
sort_requirements r = record {
  operating_systems = sort text_lt r.operating_systems;
  architectures = sort text_lt r.architectures;
  capabilities = sort text_lt r.capabilities;
}

unfoldable pub normalize_requirements : Option Requirements → Option Requirements
unfolding sort_requirements empty_requirements
normalize_requirements none = none
normalize_requirements (some r) = keep_requirements (sort_requirements r)

abbrev pub canonicalizable : Result Malformed Json → Result Reason Json
canonicalizable (err e) = err "JSON is not canonicalizable"
canonicalizable (ok v) = ok v

unfoldable pub canonical_tokens : Option (List Token) → Result Reason Json
canonical_tokens none = err "malformed JSON"
canonical_tokens (some ts) = canonicalizable (canonical_value 32 ts)

-- canonicalJSON up to json.Marshal, of a text.
abbrev pub canonical_text : Host → String → Result Reason Json
canonical_text host raw = canonical_tokens (host.tokens raw)

unfoldable pub require_object : Json → Result Reason (Unit {0})
require_object (object ms) = ok tt
require_object _ = err "must be a JSON object"

unfoldable pub normalize_extensions :
    Host → List (String × String) → Result Reason (List (String × String))
unfolding canonical_tokens require_object
normalize_extensions host [] = ok []
normalize_extensions host ((name, raw) ∷ entries) = canonical_text host raw >>= λ v.
    require_object v >>= λ _.
    normalize_extensions host entries >>= λ others. ok ((name, host.marshal v) ∷ others)

-- Everything but the extensions.
unfoldable pub normalize_spec : WorkloadSpec → WorkloadSpec
unfolding normalize_optional_environment normalize_resources normalize_runtime normalize_artifacts
    normalize_policy normalize_requirements
normalize_spec s = record s {
  working_directory = default_text "workspace:/" s.working_directory;
  environment = normalize_optional_environment s.environment;
  resources = normalize_resources s.resources;
  runtime = normalize_runtime s.runtime;
  artifacts = normalize_artifacts s.artifacts;
  policy = normalize_policy s.policy;
  requirements = normalize_requirements s.requirements;
}

unfoldable pub normalize_workload : Host → Workload → Result Reason Workload
unfolding normalize_spec normalize_extensions
normalize_workload host w = normalize_extensions host w.spec.extensions >>= λ extensions.
    ok (record w { spec = record (normalize_spec w.spec) { extensions = extensions } })
