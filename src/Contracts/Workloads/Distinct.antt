-- ===== src/Contracts/Workloads/Distinct.antt =====
-- contracts/jobman/v1alpha1/validate.go: the names of a workload's artifacts.
use jobman_control.Contracts.Workloads.{Host, Artifacts}
use jobman_control.Contracts.Workloads.Parts.{has_text}
use jobman_control.Contracts.Workloads.Valid.{
  claim_artifact_name, validate_named, validate_artifacts, validate_input_artifact,
  validate_output_artifact,
}
use jobman_control.Contracts.Names.{Reason, validate_name}
use jobman_control.Prelude.{
  ◌+◌, ◌-◌, ◌≤◌, String, Bool, true, false, ◌||◌, List, [], ◌∷◌, str_eq, ltb, length, map, Result,
  ok, refuse, >>=-eq-ok, refuse-eq-ok, ok-injective, ◌≡◌, refl, sym, ap, ◌∙◌, All, arith, subst,
  Bool-cases, inl, inr, eq_iff,
}

abbrev pub Distinct : List String → Type 0
Distinct [] = Unit
Distinct (n ∷ ns) = (has_text n ns ≡ false) × Distinct ns

-- None of some names is among others.
abbrev pub Fresh : List String → List String → Type 0
Fresh seen = All (λ n. has_text n seen ≡ false)

str_eq-sym : (s t : String) → str_eq s t ≡ str_eq t s
str_eq-sym s t = elim (Bool-cases (str_eq s t)) [
  | inl e ↦ ap (λ u. str_eq s u) (sym ((eq_iff s t).0 e)) ∙ ap (λ u. str_eq u s) ((eq_iff s t).0 e)
  | inr e ↦ elim (Bool-cases (str_eq t s)) [
    | inl k ↦
        ap (λ u. str_eq u t) (sym ((eq_iff t s).0 k)) ∙ ap (λ u. str_eq t u) ((eq_iff t s).0 k)
    | inr k ↦ e ∙ sym k
  ]
]

or_false : (b : Bool) → b ≡ b || false
or_false true = refl
or_false false = refl

or_shift : (a b c : Bool) → (a || b) || c ≡ b || (a || c)
or_shift true true c = refl
or_shift true false c = refl
or_shift false b c = refl

Fresh-cons :
    (y : String) (seen ns : List String)
    → Fresh (y ∷ seen) ns
    → (has_text y ns ≡ false) × Fresh seen ns
Fresh-cons y seen [] f = (refl, tt)
Fresh-cons y seen (n ∷ ns) f = ground (arith, f, Fresh-cons y seen ns, str_eq-sym n y)

-- Names that are the same whatever the order they are listed in.
Fresh-same :
    (xs ys ns : List String)
    → ((n : String) → has_text n xs ≡ has_text n ys)
    → Fresh xs ns
    → Fresh ys ns
Fresh-same xs ys [] same f = tt
Fresh-same xs ys (n ∷ ns) same f = (sym (same n) ∙ f.0, Fresh-same xs ys ns same f.1)

module _ {A : Type 0} (name : A → String) (check : A → Result Reason (Unit {0})) where
  abbrev Named : List String → List A → List String → Type 0
  Named seen xs claimed =
      Distinct (map name xs)
      × Fresh seen (map name xs)
      × ((n : String) → has_text n claimed ≡ has_text n seen || has_text n (map name xs))

  -- What the loop accepts has names that are new and distinct, and it returns them with those seen.
  validate_named-Distinct :
      (seen : List String) (xs : List A) (claimed : List String)
      → validate_named name check seen xs ≡ ok claimed
      → Named seen xs claimed
  unfolding validate_named claim_artifact_name
  validate_named-Distinct seen [] claimed h = (
    tt,
    tt,
    (λ n. ap (has_text n) (sym (ok-injective seen claimed h)) ∙ or_false (has_text n seen)),
  )
  validate_named-Distinct seen (x ∷ xs) claimed h =
      let (added, claims, h1) = >>=-eq-ok (claim_artifact_name seen (name x)) _ h in
      let (_, _, h2) = >>=-eq-ok (check x) _ h1 in
      let (_, _, c1) = >>=-eq-ok (validate_name (name x)) _ claims in
      let (_, fresh, c2) =
        >>=-eq-ok (refuse (has_text (name x) seen) "duplicate artifact name") _ c1 in
      let (distinct, others_fresh, covers) = validate_named-Distinct (name x ∷ seen) xs claimed (
        subst (λ l. validate_named name check l xs ≡ ok claimed)
          (sym (ok-injective (name x ∷ seen) added c2)) h2) in
      let (apart, still_fresh) = Fresh-cons (name x) seen (map name xs) others_fresh in
      (
        (apart, distinct),
        (refuse-eq-ok (has_text (name x) seen) "duplicate artifact name" fresh, still_fresh),
        (λ n. covers n ∙ or_shift (str_eq n (name x)) (has_text n seen) (has_text n (map name xs))),
      )

-- The artifacts that validateArtifacts accepts have distinct names, inputs and outputs together, and
-- there are at most 4096 of them.
pub validate_artifacts-Distinct :
    (host : Host) (a : Artifacts)
    → validate_artifacts host a ≡ ok tt
    → Distinct (map (λ i. i.name) a.inputs)
      × Distinct (map (λ o. o.name) a.outputs)
      × Fresh (map (λ i. i.name) a.inputs) (map (λ o. o.name) a.outputs)
      × (length a.inputs + length a.outputs ≤ 4096)
unfolding validate_artifacts
validate_artifacts-Distinct host a h =
    let (_, bounded, h1) =
      >>=-eq-ok
        (refuse (ltb 4096 (length a.inputs) || ltb (4096 - length a.inputs) (length a.outputs))
          "too many artifacts")
        _ h in
    let (claimed, inputs, h2) =
      >>=-eq-ok (validate_named (λ i. i.name) (validate_input_artifact host) [] a.inputs) _ h1 in
    let (all, outputs, _) =
      >>=-eq-ok (validate_named (λ o. o.name) (validate_output_artifact host) claimed a.outputs) _
        h2 in
    let (distinct, _, covers) =
      validate_named-Distinct (λ i. i.name) (validate_input_artifact host) [] a.inputs claimed
        inputs in
    let (others_distinct, fresh, _) =
      validate_named-Distinct (λ o. o.name) (validate_output_artifact host) claimed a.outputs all
        outputs in
    (
      distinct,
      others_distinct,
      Fresh-same claimed (map (λ i. i.name) a.inputs) (map (λ o. o.name) a.outputs) covers fresh,
      ground (
        arith,
        refuse-eq-ok (ltb 4096 (length a.inputs) || ltb (4096 - length a.inputs) (length a.outputs))
            "too many artifacts" bounded,
      ),
    )
