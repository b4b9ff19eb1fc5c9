-- ===== src/Contracts/Workloads/Idempotent.antt =====
-- contracts/jobman/v1alpha1/normalize.go: normalizing a workload that is normalized changes nothing.
use jobman_control.Contracts.Workloads.{
  Host, Workload, WorkloadSpec, Environment, Resources, Runtime, ContainerRuntime, Artifacts,
  ExecutionPolicy, Requirements,
}
use jobman_control.Contracts.Workloads.Normal.{
  default_text, empty_environment, normalize_environment, normalize_optional_environment, is_zero,
  empty_resources, normalize_resources, normalize_container, normalize_optional_container,
  canonicalizable, canonical_tokens, normalize_runtime, sort_artifacts, normalize_artifacts,
  normalize_policy, sort_requirements, normalize_requirements, empty_requirements, canonical_text,
  require_object, normalize_extensions, normalize_spec, normalize_workload,
}
use jobman_control.Contracts.Json.{Json, Token, Malformed, canonical_value}
use jobman_control.Contracts.Json.Writing.{write}
use jobman_control.Contracts.Json.Sound.{IsToken, canonical_value_again}
use jobman_control.Contracts.Sorting.{sort, sort_again}
use jobman_control.Contracts.Paths.{is_empty}
use jobman_control.Prelude.{
  String, false, ◌&&◌, Option, none, some, List, [], ◌∷◌, str_eq, text_lt, text_lt-asym, Result, ok,
  err, ◌>>=◌, >>=-eq-ok, ok-injective, ◌≡◌, refl, sym, ap, ◌∙◌, All, arith, subst, Bool-cases, inl,
  inr,
}

sort_by_again :
    {A : Type 0} (name : A → String) (xs : List A)
    → sort (λ a b. text_lt (name a) (name b)) (sort (λ a b. text_lt (name a) (name b)) xs)
      ≡ sort (λ a b. text_lt (name a) (name b)) xs
sort_by_again name xs =
    sort_again (λ a b. text_lt (name a) (name b)) (λ a b. text_lt-asym (name a) (name b)) xs

normalize_environment_again :
    (e : Environment) → normalize_environment (normalize_environment e) ≡ normalize_environment e
unfolding normalize_environment
normalize_environment_again e =
    ap (λ l. record e { secrets = l }) (sort_by_again (λ s. s.name) e.secrets)

normalize_optional_environment_again :
    (e : Option Environment)
    → normalize_optional_environment (normalize_optional_environment e)
      ≡ normalize_optional_environment e
unfolding normalize_optional_environment
normalize_optional_environment_again none = refl
normalize_optional_environment_again (some e) =
    elim (Bool-cases (empty_environment (normalize_environment e))) [
      | inl h ↦ rw (h, normalize_optional_environment) refl
      | inr h ↦
          rw
            (
              h,
              normalize_optional_environment,
              ap empty_environment (normalize_environment_again e) ∙ h,
              normalize_environment_again e,
            )
            refl
    ]

normalize_resources_again :
    (r : Option Resources) → normalize_resources (normalize_resources r) ≡ normalize_resources r
unfolding normalize_resources
normalize_resources_again none = refl
normalize_resources_again (some r) = elim (Bool-cases (empty_resources r)) [
  | inl h ↦ rw (h, normalize_resources) refl
  | inr h ↦ rw (h, normalize_resources, h) refl
]

default_text_again :
    (d v : String) → str_eq d "" ≡ false → default_text d (default_text d v) ≡ default_text d v
default_text_again d v h = elim (Bool-cases (str_eq v "")) [
  | inl e ↦ rw (e, h) refl
  | inr e ↦ rw (e, e) refl
]

normalize_container_again :
    (c : ContainerRuntime) → normalize_container (normalize_container c) ≡ normalize_container c
unfolding normalize_container
normalize_container_again c =
    rw
      (
        default_text_again "if-not-present" c.pull_policy refl,
        default_text_again "restricted" c.network refl,
      )
      refl

normalize_optional_container_again :
    (c : Option ContainerRuntime)
    → normalize_optional_container (normalize_optional_container c) ≡ normalize_optional_container c
normalize_optional_container_again none = refl
normalize_optional_container_again (some c) = ap some (normalize_container_again c)

normalize_runtime_again :
    (r : Runtime) → normalize_runtime (normalize_runtime r) ≡ normalize_runtime r
unfolding normalize_runtime
normalize_runtime_again r =
    rw (default_text_again "native" r.kind refl, normalize_optional_container_again r.container)
      refl

sort_artifacts_again : (a : Artifacts) → sort_artifacts (sort_artifacts a) ≡ sort_artifacts a
unfolding sort_artifacts
sort_artifacts_again a =
    rw (sort_by_again (λ x. x.name) a.inputs, sort_by_again (λ x. x.name) a.outputs) refl

normalize_artifacts_again :
    (a : Option Artifacts) → normalize_artifacts (normalize_artifacts a) ≡ normalize_artifacts a
unfolding normalize_artifacts
normalize_artifacts_again none = refl
normalize_artifacts_again (some a) =
    elim (Bool-cases (is_empty (sort_artifacts a).inputs && is_empty (sort_artifacts a).outputs)) [
      | inl h ↦ rw (h, normalize_artifacts) refl
      | inr h ↦
          rw
            (
              h,
              normalize_artifacts,
              ap (λ b. is_empty b.inputs && is_empty b.outputs) (sort_artifacts_again a) ∙ h,
              sort_artifacts_again a,
            )
            refl
    ]

normalize_policy_again :
    (p : ExecutionPolicy) → normalize_policy (normalize_policy p) ≡ normalize_policy p
unfolding normalize_policy
normalize_policy_again p = elim (Bool-cases (is_zero p.retry.max_runs)) [
  | inl e ↦ rw (e, default_text_again "reject" p.duplicate_risk refl) refl
  | inr e ↦ rw (e, e, default_text_again "reject" p.duplicate_risk refl) refl
]

sort_requirements_again :
    (r : Requirements) → sort_requirements (sort_requirements r) ≡ sort_requirements r
unfolding sort_requirements
sort_requirements_again r =
    rw
      (
        sort_again text_lt text_lt-asym r.operating_systems,
        sort_again text_lt text_lt-asym r.architectures,
        sort_again text_lt text_lt-asym r.capabilities,
      )
      refl

normalize_requirements_again :
    (r : Option Requirements)
    → normalize_requirements (normalize_requirements r) ≡ normalize_requirements r
unfolding normalize_requirements
normalize_requirements_again none = refl
normalize_requirements_again (some r) =
    elim (Bool-cases (empty_requirements (sort_requirements r))) [
      | inl h ↦ rw (h, normalize_requirements) refl
      | inr h ↦
          rw
            (
              h,
              normalize_requirements,
              ap empty_requirements (sort_requirements_again r) ∙ h,
              sort_requirements_again r,
            )
            refl
    ]

normalize_spec_again : (s : WorkloadSpec) → normalize_spec (normalize_spec s) ≡ normalize_spec s
unfolding normalize_spec
normalize_spec_again s =
    rw
      (
        default_text_again "workspace:/" s.working_directory refl,
        normalize_optional_environment_again s.environment,
        normalize_resources_again s.resources,
        normalize_runtime_again s.runtime,
        normalize_artifacts_again s.artifacts,
        normalize_policy_again s.policy,
        normalize_requirements_again s.requirements,
      )
      refl

-- json.Decoder reads a document's tokens, and of the canonical form that json.Marshal writes, those of
-- the value.
abbrev pub ReadsBack : Host → String × String → Type 0
ReadsBack host entry =
    ((ts : List Token) → host.tokens entry.1 ≡ some ts → All IsToken ts)
    × ((v : Json)
        → canonical_text host entry.1 ≡ ok v
        → host.tokens (host.marshal v) ≡ some (write v []))

of_canonicalizable : (r : Result Malformed Json) (v : Json) → canonicalizable r ≡ ok v → r ≡ ok v
of_canonicalizable (err e) v h = ground (arith, h)
of_canonicalizable (ok u) v h = ap ok (ok-injective u v h)

canonical_tokens_again :
    (t : Option (List Token)) (v : Json)
    → ((ts : List Token) → t ≡ some ts → All IsToken ts)
    → canonical_tokens t ≡ ok v
    → canonical_tokens (some (write v [])) ≡ ok v
unfolding canonical_tokens
canonical_tokens_again none v n h = ground (arith, h)
canonical_tokens_again (some ts) v n h =
    ap canonicalizable
      (canonical_value_again 32 ts v (n ts refl) (of_canonicalizable (canonical_value 32 ts) v h))

canonical_text_again :
    (host : Host) (name raw : String) (v : Json)
    → ReadsBack host (name, raw)
    → canonical_text host raw ≡ ok v
    → canonical_text host (host.marshal v) ≡ ok v
canonical_text_again host name raw v reads h =
    ap canonical_tokens (reads.1 v h) ∙ canonical_tokens_again (host.tokens raw) v reads.0 h

normalize_extensions_again :
    (host : Host) (entries normal : List (String × String))
    → All (ReadsBack host) entries
    → normalize_extensions host entries ≡ ok normal
    → normalize_extensions host normal ≡ ok normal
unfolding normalize_extensions
normalize_extensions_again host [] normal reads h = rw (sym (ok-injective [] normal h)) refl
normalize_extensions_again host ((name, raw) ∷ entries) normal reads h =
    let (v, reads_v, of_v) = >>=-eq-ok (canonical_text host raw) _ h in
    let (_, is_object, others_v) = >>=-eq-ok (require_object v) _ of_v in
    let (others, normal_others, done) = >>=-eq-ok (normalize_extensions host entries) _ others_v in
    rw
      (
        sym (ok-injective ((name, host.marshal v) ∷ others) normal done),
        normalize_extensions,
        canonical_text_again host name raw v reads.0 reads_v,
        is_object,
        normalize_extensions_again host entries others reads.1 normal_others,
      )
      refl

-- A workload that normalizeWorkload returns is returned unchanged when it is normalized again, if the
-- canonical form of each of its extensions, as json.Marshal writes it, is read back as the same value.
pub normalize_workload_again :
    (host : Host) (w normal : Workload)
    → All (ReadsBack host) w.spec.extensions
    → normalize_workload host w ≡ ok normal
    → normalize_workload host normal ≡ ok normal
unfolding normalize_workload
normalize_workload_again host w normal reads h =
    let (extensions, normalized, done) =
      >>=-eq-ok (normalize_extensions host w.spec.extensions) _ h in
    subst (λ n. normalize_workload host n ≡ ok n)
      (ok-injective (record w { spec = record (normalize_spec w.spec) { extensions = extensions } })
        normal done)
      (ap
          (λ r. r >>= λ e. ok (record w {
            spec = record (normalize_spec (normalize_spec w.spec)) { extensions = e };
          }))
          (normalize_extensions_again host w.spec.extensions extensions reads normalized)
        ∙ ap (λ s. ok (record w { spec = record s { extensions = extensions } }))
            (normalize_spec_again w.spec))
