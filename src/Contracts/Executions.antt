-- ===== src/Contracts/Executions.antt =====
-- contracts/jobman/v1alpha1: the effective execution that the control plane resolves for an agent, and
-- the assignment that carries it (types.go, validate.go, codec.go).
pub mod Digests
use jobman_control.Contracts.Requests.Seal.{Codec, Sealed, seal_document}
use jobman_control.Contracts.Workloads.{Host}
use jobman_control.Contracts.Workloads.Seal.{
  WorkloadBinding, list_eq, option_eq, integer_eq, workload_eq, validate_workload_binding,
  bind_workload,
}
use jobman_control.Contracts.Workloads.Parts.{has_text, is_none, if_text, each}
use jobman_control.Contracts.Workloads.Valid.{is_sorted}
use jobman_control.Contracts.Names.{Reason, matches_id, matches_digest, validate_name}
use jobman_control.Contracts.Paths.{is_empty}
use jobman_control.Contracts.Sorting.{sort}
use jobman_control.Prelude.{
  String, Bool, true, false, ◌&&◌, not, Option, none, some, List, [], ◌∷◌, map, if◌then◌else◌,
  str_eq, text_lt, leb, codes, ℤ, pos, negsuc, Result, ok, err, ◌>>=◌, ◌>>◌, refuse, or_fail,
}

pub record SlurmArrayBinding : Type 0 where
  pub collection_id : String
  pub task_index : ℤ
  pub task_count : ℤ
  pub max_parallel : ℤ

pub record ExecutionMetadata : Type 0 where
  pub execution_id : String
  pub run_id : String
  pub job_id : String
  pub namespace : String
  pub slurm_array : Option SlurmArrayBinding

pub record EffectivePlacement : Type 0 where
  pub target_id : String
  pub target_generation_id : String
  pub target : String
  pub partition : String
  pub execution_backend : String

pub record StoreBinding : Type 0 where
  pub name : String
  pub version : ℤ

pub record EffectiveExecution : Type 0 where
  pub api_version : String
  pub kind : String
  pub metadata : ExecutionMetadata
  pub workload : WorkloadBinding
  pub placement : EffectivePlacement
  pub artifact_stores : List StoreBinding

abbrev pub is_id : String → Bool
is_id value = matches_id (codes value)

abbrev pub check_id : String → Result Reason (Unit {0})
check_id value = refuse (not (is_id value)) "invalid ID"

abbrev pub integer_leb : ℤ → ℤ → Bool
integer_leb (pos m) (pos n) = leb m n
integer_leb (pos m) (negsuc n) = false
integer_leb (negsuc m) (pos n) = true
integer_leb (negsuc m) (negsuc n) = leb n m

-- An index below a count of 2 to 10000, and a bound within the count, on Slurm.
unfoldable pub valid_slurm_array : String → SlurmArrayBinding → Bool
unfolding matches_id
valid_slurm_array backend a =
    is_id a.collection_id
    && integer_leb (pos 2) a.task_count
    && integer_leb a.task_count (pos 10000)
    && integer_leb (pos 0) a.task_index
    && not (integer_leb a.task_count a.task_index)
    && integer_leb (pos 1) a.max_parallel
    && integer_leb a.max_parallel a.task_count
    && str_eq backend "slurm"

abbrev pub validate_slurm_array : String → Option SlurmArrayBinding → Result Reason (Unit {0})
validate_slurm_array backend none = ok tt
validate_slurm_array backend (some a) =
    refuse (not (valid_slurm_array backend a)) "invalid Slurm array binding"

unfoldable pub validate_store : List String → StoreBinding → Result Reason (Unit {0})
unfolding validate_name
validate_store seen store = do
  elim (validate_name store.name) [
    | err e ↦ err "invalid artifact store binding"
    | ok u ↦ refuse (not (integer_leb (pos 1) store.version)) "invalid artifact store binding"
  ]
  refuse (has_text store.name seen) "duplicate artifact store binding"

unfoldable pub validate_stores : List String → List StoreBinding → Result Reason (Unit {0})
unfolding validate_store
validate_stores seen [] = ok tt
validate_stores seen (store ∷ stores) =
    validate_store seen store >> validate_stores (store.name ∷ seen) stores

abbrev pub store_names : List StoreBinding → List String
store_names = map (λ s. s.name)

abbrev pub identities : EffectiveExecution → List String
identities x =
    x.metadata.execution_id ∷ x.metadata.run_id ∷ x.metadata.job_id ∷ x.placement.target_id
    ∷ x.placement.target_generation_id ∷ []

unfoldable pub validate_effective_execution : Host → EffectiveExecution → Result Reason (Unit {0})
unfolding matches_id validate_name valid_slurm_array validate_workload_binding validate_stores
    is_sorted each
validate_effective_execution host x = do
  refuse (not (str_eq x.api_version "jobman/v1alpha1")) "unsupported API version"
  refuse (not (str_eq x.kind "EffectiveExecution")) "unsupported kind"
  each check_id (identities x)
  validate_name x.metadata.namespace
  validate_slurm_array x.placement.execution_backend x.metadata.slurm_array
  validate_workload_binding host x.workload
  validate_name x.placement.target
  if_text validate_name x.placement.partition
  refuse (not (has_text x.placement.execution_backend ("subprocess" ∷ "slurm" ∷ [])))
      "unsupported execution backend"
  validate_stores [] x.artifact_stores
  refuse (not (is_sorted (store_names x.artifact_stores))) "artifact stores are not normalized"
  refuse
      (if is_none x.workload.document.spec.artifacts
        then not (is_empty x.artifact_stores)
        else is_empty x.artifact_stores)
      "artifact stores do not match workload artifacts"

abbrev pub sort_stores : List StoreBinding → List StoreBinding
sort_stores = sort (λ s t. text_lt s.name t.name)

abbrev pub normal_execution : EffectiveExecution → WorkloadBinding → EffectiveExecution
normal_execution x binding = record x {
  workload = binding;
  artifact_stores = sort_stores x.artifact_stores;
}

unfoldable pub seal_effective_execution :
    Host → Codec EffectiveExecution → EffectiveExecution → Result Reason (Sealed EffectiveExecution)
unfolding bind_workload validate_effective_execution seal_document
seal_effective_execution host codec value = do
  cloned ← or_fail (codec.clone value) "clone"
  binding ← bind_workload host cloned.workload
  validate_effective_execution host (normal_execution cloned binding)
  seal_document host codec [] (normal_execution cloned binding)

abbrev pub array_eq : SlurmArrayBinding → SlurmArrayBinding → Bool
array_eq a b =
    str_eq a.collection_id b.collection_id
    && integer_eq a.task_index b.task_index
    && integer_eq a.task_count b.task_count
    && integer_eq a.max_parallel b.max_parallel

-- reflect.DeepEqual of effective executions
unfoldable pub execution_eq : EffectiveExecution → EffectiveExecution → Bool
unfolding workload_eq
execution_eq x y =
    str_eq x.api_version y.api_version
    && str_eq x.kind y.kind
    && str_eq x.metadata.execution_id y.metadata.execution_id
    && str_eq x.metadata.run_id y.metadata.run_id
    && str_eq x.metadata.job_id y.metadata.job_id
    && str_eq x.metadata.namespace y.metadata.namespace
    && option_eq array_eq x.metadata.slurm_array y.metadata.slurm_array
    && str_eq x.workload.digest y.workload.digest
    && workload_eq x.workload.document y.workload.document
    && str_eq x.placement.target_id y.placement.target_id
    && str_eq x.placement.target_generation_id y.placement.target_generation_id
    && str_eq x.placement.target y.placement.target
    && str_eq x.placement.partition y.placement.partition
    && str_eq x.placement.execution_backend y.placement.execution_backend
    && list_eq (λ s t. str_eq s.name t.name && integer_eq s.version t.version) x.artifact_stores
        y.artifact_stores

pub record AgentAssignment : Type 0 where
  pub api_version : String
  pub kind : String
  pub delivery_id : String
  pub agent_id : String
  pub effective_execution_digest : String
  pub effective_execution : EffectiveExecution

unfoldable pub validate_agent_assignment :
    Host → Codec EffectiveExecution → AgentAssignment → Result Reason (Unit {0})
unfolding matches_id matches_digest seal_effective_execution execution_eq
validate_agent_assignment host codec a = do
  refuse (not (str_eq a.api_version "jobman/v1alpha1")) "unsupported API version"
  refuse (not (str_eq a.kind "AgentAssignment")) "unsupported kind"
  refuse (not (is_id a.delivery_id)) "invalid delivery ID"
  refuse (not (is_id a.agent_id)) "invalid agent ID"
  refuse (not (matches_digest (codes a.effective_execution_digest)))
      "invalid effective execution digest"
  sealed ← seal_effective_execution host codec a.effective_execution
  refuse (not (str_eq a.effective_execution_digest sealed.digest))
      "effective execution digest does not match document"
  refuse (not (execution_eq a.effective_execution sealed.document))
      "effective execution is not normalized"

abbrev pub sealed_assignment : AgentAssignment → Sealed EffectiveExecution → AgentAssignment
sealed_assignment a sealed = record a {
  effective_execution = sealed.document;
  effective_execution_digest = sealed.digest;
}

unfoldable pub seal_agent_assignment :
    Host
    → Codec EffectiveExecution
    → Codec AgentAssignment
    → AgentAssignment
    → Result Reason (Sealed AgentAssignment)
unfolding seal_effective_execution validate_agent_assignment seal_document
seal_agent_assignment host codec assignments value = do
  cloned ← or_fail (assignments.clone value) "clone"
  sealed ← seal_effective_execution host codec cloned.effective_execution
  refuse
      (not (str_eq cloned.effective_execution_digest "")
        && not (str_eq cloned.effective_execution_digest sealed.digest))
      "effective execution digest does not match document"
  validate_agent_assignment host codec (sealed_assignment cloned sealed)
  seal_document host assignments (sealed.digest ∷ []) (sealed_assignment cloned sealed)
