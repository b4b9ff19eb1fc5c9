-- ===== src/Contracts/Executions/Digests.antt =====
-- contracts/jobman/v1alpha1/codec.go: the digests in a sealed assignment are those of what it carries.
use jobman_control.Contracts.Executions.{
  EffectiveExecution, AgentAssignment, is_id, check_id, identities, validate_slurm_array,
  validate_effective_execution, normal_execution, seal_effective_execution,
  validate_agent_assignment, sealed_assignment, seal_agent_assignment,
}
use jobman_control.Contracts.Requests.Seal.{Codec, Sealed, seal_document}
use jobman_control.Contracts.Workloads.{Host}
use jobman_control.Contracts.Workloads.Seal.{
  WorkloadBinding, SealedWorkload, seal_workload, validate_workload_binding, bind_workload,
}
use jobman_control.Contracts.Workloads.Normal.{canonical_text}
use jobman_control.Contracts.Workloads.Parts.{each}
use jobman_control.Contracts.Names.{matches_digest, validate_name}
use jobman_control.Prelude.{
  String, false, ◌&&◌, not, List, [], ◌∷◌, str_eq, codes, ok, refuse, or_fail, >>=-eq-ok,
  refuse-eq-ok, ok-injective, ◌≡◌, sym, ap, subst, arith, eq_iff,
}

-- A document that can be sealed, and whose seal has a digest.
abbrev pub IsBound : Host → WorkloadBinding → Type 0
IsBound host b =
    (s : SealedWorkload) × (seal_workload host b.document ≡ ok s) × (s.digest ≡ b.digest)

abbrev pub HasDigest : Host → Codec EffectiveExecution → EffectiveExecution → String → Type 0
HasDigest host codec x digest =
    (s : Sealed EffectiveExecution) × (seal_effective_execution host codec x ≡ ok s)
    × (s.digest ≡ digest)
    × IsBound host s.document.workload

same_digest : (s t : String) → not (str_eq s t) ≡ false → t ≡ s
same_digest s t h = sym ((eq_iff s t).0 (ground (arith, h)))

validate_workload_binding-IsBound :
    (host : Host) (b : WorkloadBinding) → validate_workload_binding host b ≡ ok tt → IsBound host b
unfolding validate_workload_binding
validate_workload_binding-IsBound host b h =
    let (_, _, h1) =
      >>=-eq-ok (refuse (not (matches_digest (codes b.digest))) "invalid workload digest") _ h in
    let (s, seals, h2) = >>=-eq-ok (seal_workload host b.document) _ h1 in
    let (_, equal, _) =
      >>=-eq-ok (refuse (not (str_eq b.digest s.digest)) "workload digest does not match document")
        _ h2 in
    (
      s,
      seals,
      same_digest b.digest s.digest (
          refuse-eq-ok (not (str_eq b.digest s.digest)) "workload digest does not match document"
            equal),
    )

validate_effective_execution-IsBound :
    (host : Host) (x : EffectiveExecution)
    → validate_effective_execution host x ≡ ok tt
    → IsBound host x.workload
unfolding validate_effective_execution
validate_effective_execution-IsBound host x h =
    let (_, _, h1) =
      >>=-eq-ok (refuse (not (str_eq x.api_version "jobman/v1alpha1")) "unsupported API version") _
        h in
    let (_, _, h2) =
      >>=-eq-ok (refuse (not (str_eq x.kind "EffectiveExecution")) "unsupported kind") _ h1 in
    let (_, _, h3) = >>=-eq-ok (each check_id (identities x)) _ h2 in
    let (_, _, h4) = >>=-eq-ok (validate_name x.metadata.namespace) _ h3 in
    let (_, _, h5) =
      >>=-eq-ok (validate_slurm_array x.placement.execution_backend x.metadata.slurm_array) _ h4 in
    let (_, bound, _) = >>=-eq-ok (validate_workload_binding host x.workload) _ h5 in
    validate_workload_binding-IsBound host x.workload bound

seal_document-document :
    {A : Type 0} (host : Host) (codec : Codec A) (digests : List String) (document : A)
    (s : Sealed A)
    → seal_document host codec digests document ≡ ok s
    → document ≡ s.document
unfolding seal_document
seal_document-document host codec digests document s h =
    let (encoded, _, h1) = >>=-eq-ok (or_fail (codec.encode document) "encode") _ h in
    let (v, _, h2) = >>=-eq-ok (canonical_text host encoded) _ h1 in
    ap (λ z. z.document) (ok-injective _ s h2)

seal_effective_execution-IsBound :
    (host : Host) (codec : Codec EffectiveExecution) (x : EffectiveExecution)
    (s : Sealed EffectiveExecution)
    → seal_effective_execution host codec x ≡ ok s
    → IsBound host s.document.workload
unfolding seal_effective_execution
seal_effective_execution-IsBound host codec x s h =
    let (copy, _, h1) = >>=-eq-ok (or_fail (codec.clone x) "clone") _ h in
    let (binding, _, h2) = >>=-eq-ok (bind_workload host copy.workload) _ h1 in
    let (_, valid, h3) =
      >>=-eq-ok (validate_effective_execution host (normal_execution copy binding)) _ h2 in
    subst (λ d. IsBound host d.workload)
      (seal_document-document host codec [] (normal_execution copy binding) s h3)
      (validate_effective_execution-IsBound host (normal_execution copy binding) valid)

validate_agent_assignment-HasDigest :
    (host : Host) (codec : Codec EffectiveExecution) (a : AgentAssignment)
    → validate_agent_assignment host codec a ≡ ok tt
    → HasDigest host codec a.effective_execution a.effective_execution_digest
unfolding validate_agent_assignment
validate_agent_assignment-HasDigest host codec a h =
    let (_, _, h1) =
      >>=-eq-ok (refuse (not (str_eq a.api_version "jobman/v1alpha1")) "unsupported API version") _
        h in
    let (_, _, h2) =
      >>=-eq-ok (refuse (not (str_eq a.kind "AgentAssignment")) "unsupported kind") _ h1 in
    let (_, _, h3) = >>=-eq-ok (refuse (not (is_id a.delivery_id)) "invalid delivery ID") _ h2 in
    let (_, _, h4) = >>=-eq-ok (refuse (not (is_id a.agent_id)) "invalid agent ID") _ h3 in
    let (_, _, h5) =
      >>=-eq-ok
        (refuse (not (matches_digest (codes a.effective_execution_digest)))
          "invalid effective execution digest")
        _ h4 in
    let (s, seals, h6) =
      >>=-eq-ok (seal_effective_execution host codec a.effective_execution) _ h5 in
    let (_, equal, _) =
      >>=-eq-ok
        (refuse (not (str_eq a.effective_execution_digest s.digest))
          "effective execution digest does not match document")
        _ h6 in
    (
      s,
      seals,
      same_digest a.effective_execution_digest s.digest (
          refuse-eq-ok (not (str_eq a.effective_execution_digest s.digest))
            "effective execution digest does not match document" equal),
      seal_effective_execution-IsBound host codec a.effective_execution s seals,
    )

-- An assignment that SealAgentAssignment returns carries an effective execution that can be sealed, and
-- the digest of that seal; and the workload in the sealed execution can be sealed, with the digest that
-- the execution binds it to.
pub seal_agent_assignment-HasDigest :
    (host : Host) (codec : Codec EffectiveExecution) (assignments : Codec AgentAssignment)
    (a : AgentAssignment) (s : Sealed AgentAssignment)
    → seal_agent_assignment host codec assignments a ≡ ok s
    → HasDigest host codec s.document.effective_execution s.document.effective_execution_digest
unfolding seal_agent_assignment
seal_agent_assignment-HasDigest host codec assignments a s h =
    let (copy, _, h1) = >>=-eq-ok (or_fail (assignments.clone a) "clone") _ h in
    let (x, _, h2) =
      >>=-eq-ok (seal_effective_execution host codec copy.effective_execution) _ h1 in
    let (_, _, h3) =
      >>=-eq-ok
        (refuse
          (not (str_eq copy.effective_execution_digest "")
            && not (str_eq copy.effective_execution_digest x.digest))
          "effective execution digest does not match document")
        _ h2 in
    let (_, valid, h4) =
      >>=-eq-ok (validate_agent_assignment host codec (sealed_assignment copy x)) _ h3 in
    subst (λ d. HasDigest host codec d.effective_execution d.effective_execution_digest)
      (seal_document-document host assignments (x.digest ∷ []) (sealed_assignment copy x) s h4)
      (validate_agent_assignment-HasDigest host codec (sealed_assignment copy x) valid)
