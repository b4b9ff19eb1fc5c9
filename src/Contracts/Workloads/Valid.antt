-- ===== src/Contracts/Workloads/Valid.antt =====
-- contracts/jobman/v1alpha1/validate.go: ValidateWorkload, with the checks of artifacts, policy,
-- requirements and extensions. A set of names is the list of its names.
use jobman_control.Contracts.Workloads.{
  Host, Workload, Artifacts, InputArtifact, OutputArtifact, ExecutionPolicy, Requirements,
}
use jobman_control.Contracts.Workloads.Normal.{canonical_text, canonical_tokens, require_object}
use jobman_control.Contracts.Workloads.Parts.{
  has_text, if_some, if_text, each, validate_workload_metadata, validate_command,
  validate_environment, validate_duration, validate_resources, validate_runtime,
}
use jobman_control.Contracts.Names.{Reason, matches_digest, validate_name}
use jobman_control.Contracts.Paths.{validate_logical_path, validate_logical_uri}
use jobman_control.Prelude.{
  ◌-◌, String, Bool, true, false, ◌&&◌, ◌||◌, not, List, [], ◌∷◌, str_eq, text_lt, ltb, leb, length,
  codes, ℤ, pos, negsuc, Result, ok, ◌>>=◌, ◌>>◌, refuse,
}

unfoldable pub claim_artifact_name : List String → String → Result Reason (List String)
unfolding validate_name
claim_artifact_name seen name = do
  validate_name name
  refuse (has_text name seen) "duplicate artifact name"
  ok (name ∷ seen)

unfoldable pub validate_input_artifact : Host → InputArtifact → Result Reason (Unit {0})
unfolding validate_logical_uri validate_logical_path matches_digest
validate_input_artifact host input = do
  validate_logical_uri (host.parse_url input.source) "artifact"
  validate_logical_path (codes input.target) (codes "inputs")
  refuse (not (str_eq input.checksum "") && not (matches_digest (codes input.checksum)))
      "input checksum is invalid"

unfoldable pub validate_output_artifact : Host → OutputArtifact → Result Reason (Unit {0})
unfolding validate_logical_uri validate_logical_path
validate_output_artifact host output = do
  validate_logical_path (codes output.source) (codes "outputs")
  validate_logical_uri (host.parse_url output.destination) "artifact"

-- One of the loops of validateArtifacts, which returns the names that it has seen.
unfoldable pub validate_named {ℓ} :
    {A : Type ℓ}
    → (A → String)
    → (A → Result Reason (Unit {0}))
    → List String
    → List A
    → Result Reason (List String)
unfolding claim_artifact_name
validate_named name check seen [] = ok seen
validate_named name check seen (x ∷ xs) =
    claim_artifact_name seen (name x) >>= λ claimed. check x >> validate_named name check claimed xs

unfoldable pub validate_artifacts : Host → Artifacts → Result Reason (Unit {0})
unfolding validate_named validate_input_artifact validate_output_artifact
validate_artifacts host a = do
  refuse (ltb 4096 (length a.inputs) || ltb (4096 - length a.inputs) (length a.outputs))
      "too many artifacts"
  claimed ← validate_named (λ i. i.name) (validate_input_artifact host) [] a.inputs
  _ ← validate_named (λ o. o.name) (validate_output_artifact host) claimed a.outputs
  ok tt

-- Between 1 and 10000.
abbrev pub is_run_count : ℤ → Bool
is_run_count (pos n) = leb 1 n && leb n 10000
is_run_count (negsuc n) = false

unfoldable pub validate_policy : Host → ExecutionPolicy → Result Reason (Unit {0})
unfolding validate_duration
validate_policy host p = do
  if_text (validate_duration host) p.run_timeout
  refuse (not (is_run_count p.retry.max_runs)) "retry max runs is out of bounds"
  if_text (validate_duration host) p.retry.backoff
  refuse (not (has_text p.duplicate_risk ("allow-if-idempotent" ∷ "reject" ∷ [])))
      "invalid duplicate-risk policy"

-- slices.IsSorted
unfoldable pub is_sorted : List String → Bool
is_sorted [] = true
is_sorted (s ∷ []) = true
is_sorted (s ∷ t ∷ ts) = not (text_lt t s) && is_sorted (t ∷ ts)

unfoldable pub has_duplicate : List String → Bool
has_duplicate [] = false
has_duplicate (s ∷ []) = false
has_duplicate (s ∷ t ∷ ts) = str_eq t s || has_duplicate (t ∷ ts)

unfoldable pub validate_set : List String → Result Reason (Unit {0})
unfolding is_sorted has_duplicate validate_name each
validate_set values = do
  refuse (ltb 1024 (length values)) "too many values"
  refuse (not (is_sorted values) || has_duplicate values) "must be sorted and unique"
  each validate_name values

unfoldable pub validate_requirements : Requirements → Result Reason (Unit {0})
unfolding validate_set
validate_requirements r = do
  validate_set r.operating_systems
  validate_set r.architectures
  validate_set r.capabilities

unfoldable pub validate_extension : Host → String × String → Result Reason (Unit {0})
unfolding validate_name canonical_tokens require_object
validate_extension host (name, raw) = do
  validate_name name
  v ← canonical_text host raw
  refuse (not (str_eq (host.marshal v) raw)) "extension is not canonical"
  require_object v

unfoldable pub validate_extensions : Host → List (String × String) → Result Reason (Unit {0})
unfolding validate_extension each
validate_extensions host extensions = do
  refuse (ltb 1024 (length extensions)) "too many extensions"
  each (validate_extension host) extensions

unfoldable pub validate_workload : Host → Workload → Result Reason (Unit {0})
unfolding validate_workload_metadata validate_command validate_logical_path validate_environment
    validate_resources validate_runtime validate_artifacts validate_policy validate_requirements
    validate_extensions
validate_workload host w = do
  refuse (not (str_eq w.api_version "jobman/v1alpha1")) "unsupported API version"
  refuse (not (str_eq w.kind "Workload")) "unsupported kind"
  validate_workload_metadata w.metadata
  validate_command w.spec.command
  validate_logical_path (codes w.spec.working_directory) (codes "workspace")
  if_some (validate_environment host) w.spec.environment
  if_some (validate_resources host) w.spec.resources
  validate_runtime w.spec.runtime
  if_some (validate_artifacts host) w.spec.artifacts
  validate_policy host w.spec.policy
  if_some validate_requirements w.spec.requirements
  validate_extensions host w.spec.extensions
