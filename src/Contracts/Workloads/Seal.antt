-- ===== src/Contracts/Workloads/Seal.antt =====
-- contracts/jobman/v1alpha1/codec.go: SealWorkload; validate.go: validateWorkloadBinding, with
-- reflect.DeepEqual on workloads written out.
use Prim.Native.String.{◌++◌ as concat}
use jobman_control.Contracts.Workloads.{
  Host, Workload, WorkloadMetadata, WorkloadSpec, Command, Environment, SecretBinding, Resources,
  Runtime, Artifacts, ExecutionPolicy, Requirements,
}
use jobman_control.Contracts.Workloads.Normal.{canonical_text, canonical_tokens, normalize_workload}
use jobman_control.Contracts.Workloads.Valid.{validate_workload}
use jobman_control.Contracts.Names.{Reason, matches_digest}
use jobman_control.Prelude.{
  String, Bool, true, false, ◌&&◌, not, Option, none, some, List, [], ◌∷◌, str_eq, ◌==◌, codes, ℤ,
  pos, negsuc, Result, ok, ◌>>=◌, ◌>>◌, refuse, or_fail,
}

pub record SealedWorkload : Type 0 where
  pub document : Workload
  pub canonical_json : String
  pub digest : String

abbrev pub digest_of : Host → String → String
digest_of host canonical = concat "sha256:" (host.sha256_hex canonical)

unfoldable pub seal_workload : Host → Workload → Result Reason SealedWorkload
unfolding normalize_workload validate_workload canonical_tokens
seal_workload host value = do
  cloned ← or_fail (host.clone_workload value) "clone"
  normal ← normalize_workload host cloned
  validate_workload host normal
  encoded ← or_fail (host.marshal_workload normal) "encode"
  v ← canonical_text host encoded
  ok (record {
    document = normal;
    canonical_json = host.marshal v;
    digest = digest_of host (host.marshal v);
  })

abbrev pub list_eq {ℓ} : {A : Type ℓ} → (A → A → Bool) → List A → List A → Bool
list_eq eq [] [] = true
list_eq eq [] (y ∷ ys) = false
list_eq eq (x ∷ xs) [] = false
list_eq eq (x ∷ xs) (y ∷ ys) = eq x y && list_eq eq xs ys

abbrev pub option_eq {ℓ} : {A : Type ℓ} → (A → A → Bool) → Option A → Option A → Bool
option_eq eq none none = true
option_eq eq none (some y) = false
option_eq eq (some x) none = false
option_eq eq (some x) (some y) = eq x y

abbrev pub entry_eq : String × String → String × String → Bool
entry_eq (j, v) (k, w) = str_eq j k && str_eq v w

abbrev pub bool_eq : Bool → Bool → Bool
bool_eq true b = b
bool_eq false b = not b

abbrev pub integer_eq : ℤ → ℤ → Bool
integer_eq (pos m) (pos n) = m == n
integer_eq (pos m) (negsuc n) = false
integer_eq (negsuc m) (pos n) = false
integer_eq (negsuc m) (negsuc n) = m == n

unfoldable pub command_eq : Command → Command → Bool
command_eq a b =
    str_eq a.executable b.executable
    && list_eq str_eq a.args b.args
    && option_eq (λ s t. str_eq s.capability t.capability && str_eq s.script t.script) a.shell
        b.shell

unfoldable pub secret_eq : SecretBinding → SecretBinding → Bool
secret_eq a b =
    str_eq a.name b.name
    && str_eq a.source b.source
    && str_eq a.expose_as.environment b.expose_as.environment
    && str_eq a.expose_as.file b.expose_as.file

unfoldable pub environment_eq : Environment → Environment → Bool
unfolding secret_eq
environment_eq a b =
    str_eq a.profile b.profile
    && list_eq entry_eq a.values b.values
    && list_eq secret_eq a.secrets b.secrets

unfoldable pub resources_eq : Resources → Resources → Bool
resources_eq a b =
    integer_eq a.cpu b.cpu
    && str_eq a.memory b.memory
    && integer_eq a.gpu b.gpu
    && integer_eq a.nodes b.nodes
    && integer_eq a.tasks b.tasks
    && str_eq a.temporary_storage b.temporary_storage
    && str_eq a.wall_time b.wall_time

unfoldable pub runtime_eq : Runtime → Runtime → Bool
runtime_eq a b =
    str_eq a.kind b.kind
    && option_eq
        (λ c d.
          str_eq c.image d.image
          && str_eq c.pull_policy d.pull_policy
          && str_eq c.network d.network)
        a.container b.container

unfoldable pub artifacts_eq : Artifacts → Artifacts → Bool
artifacts_eq a b =
    list_eq
      (λ i j.
        str_eq i.name j.name
        && str_eq i.source j.source
        && str_eq i.target j.target
        && str_eq i.checksum j.checksum)
      a.inputs b.inputs
    && list_eq
        (λ i j.
          str_eq i.name j.name
          && str_eq i.source j.source
          && str_eq i.destination j.destination
          && bool_eq i.required j.required)
        a.outputs b.outputs

unfoldable pub policy_eq : ExecutionPolicy → ExecutionPolicy → Bool
policy_eq a b =
    str_eq a.run_timeout b.run_timeout
    && integer_eq a.retry.max_runs b.retry.max_runs
    && str_eq a.retry.backoff b.retry.backoff
    && str_eq a.duplicate_risk b.duplicate_risk

unfoldable pub requirements_eq : Requirements → Requirements → Bool
requirements_eq a b =
    list_eq str_eq a.operating_systems b.operating_systems
    && list_eq str_eq a.architectures b.architectures
    && list_eq str_eq a.capabilities b.capabilities

unfoldable pub metadata_eq : WorkloadMetadata → WorkloadMetadata → Bool
metadata_eq a b =
    str_eq a.name b.name
    && str_eq a.description b.description
    && list_eq entry_eq a.labels b.labels
    && list_eq entry_eq a.annotations b.annotations

unfoldable pub spec_eq : WorkloadSpec → WorkloadSpec → Bool
unfolding command_eq environment_eq resources_eq runtime_eq artifacts_eq policy_eq requirements_eq
spec_eq a b =
    command_eq a.command b.command
    && str_eq a.working_directory b.working_directory
    && option_eq environment_eq a.environment b.environment
    && option_eq resources_eq a.resources b.resources
    && runtime_eq a.runtime b.runtime
    && option_eq artifacts_eq a.artifacts b.artifacts
    && policy_eq a.policy b.policy
    && option_eq requirements_eq a.requirements b.requirements
    && list_eq entry_eq a.extensions b.extensions

-- reflect.DeepEqual of workloads
unfoldable pub workload_eq : Workload → Workload → Bool
unfolding metadata_eq spec_eq
workload_eq a b =
    str_eq a.api_version b.api_version
    && str_eq a.kind b.kind
    && metadata_eq a.metadata b.metadata
    && spec_eq a.spec b.spec

pub record WorkloadBinding : Type 0 where
  pub digest : String
  pub document : Workload

unfoldable pub validate_workload_binding : Host → WorkloadBinding → Result Reason (Unit {0})
unfolding seal_workload workload_eq matches_digest
validate_workload_binding host binding = do
  refuse (not (matches_digest (codes binding.digest))) "invalid workload digest"
  sealed ← seal_workload host binding.document
  refuse (not (str_eq binding.digest sealed.digest)) "workload digest does not match document"
  refuse (not (workload_eq binding.document sealed.document)) "workload document is not normalized"

-- normalizeWorkloadBinding and the first half of SealJobRequest, which are the same.
unfoldable pub bind_workload : Host → WorkloadBinding → Result Reason WorkloadBinding
unfolding seal_workload
bind_workload host binding = do
  sealed ← seal_workload host binding.document
  refuse (not (str_eq binding.digest "") && not (str_eq binding.digest sealed.digest))
      "workload digest does not match document"
  ok (record { digest = sealed.digest; document = sealed.document })
