-- ===== src/Contracts/Workloads/Resealed.antt =====
-- contracts/jobman/v1alpha1/codec.go: sealing a sealed workload gives the same seal.
use jobman_control.Contracts.Workloads.{Host, Workload}
use jobman_control.Contracts.Workloads.Normal.{canonical_text, normalize_workload}
use jobman_control.Contracts.Workloads.Idempotent.{ReadsBack, normalize_workload_again}
use jobman_control.Contracts.Workloads.Valid.{validate_workload}
use jobman_control.Contracts.Workloads.Seal.{SealedWorkload, digest_of, seal_workload}
use jobman_control.Prelude.{
  some, ok, or_fail, >>=-eq-ok, ok-injective, found_of, ◌≡◌, sym, ap, ◌∙◌, All, subst,
}

-- A workload's copy through its JSON can be normalized again.
abbrev pub Copied : Host → Workload → Type 0
Copied host w =
    (copy : Workload)
    → host.clone_workload w ≡ some copy
    → All (ReadsBack host) copy.spec.extensions

-- A document that SealWorkload returned is sealed again with the same result: the same document, the
-- same canonical JSON and the same digest. The copy through JSON has to keep the sealed document, and
-- the canonical form of each extension has to be read back.
pub seal_workload_again :
    (host : Host) (w : Workload) (s : SealedWorkload)
    → Copied host w
    → host.clone_workload s.document ≡ some s.document
    → seal_workload host w ≡ ok s
    → seal_workload host s.document ≡ ok s
unfolding seal_workload
seal_workload_again host w s reads kept h =
    let (copy, cloned, h1) = >>=-eq-ok (or_fail (host.clone_workload w) "clone") _ h in
    let (normal, normalized, h2) = >>=-eq-ok (normalize_workload host copy) _ h1 in
    let (_, valid, h3) = >>=-eq-ok (validate_workload host normal) _ h2 in
    let (encoded, marshalled, h4) =
      >>=-eq-ok (or_fail (host.marshal_workload normal) "encode") _ h3 in
    let (v, canonical, h5) = >>=-eq-ok (canonical_text host encoded) _ h4 in
    let s_is =
      ok-injective
        (record {
          document = normal;
          canonical_json = host.marshal v;
          digest = digest_of host (host.marshal v);
        })
        s h5 in
    let same = ap (λ z. z.document) s_is in
    let again =
      normalize_workload_again host copy normal
        (reads copy (found_of (host.clone_workload w) "clone" copy cloned)) normalized in
    ap (seal_workload host) (sym same)
    ∙ rw
        (
          subst (λ d. host.clone_workload d ≡ some d) (sym same) kept,
          again,
          valid,
          marshalled,
          canonical,
        )
        (ap ok s_is)
