-- ===== src/Domain/Grants.antt =====
-- EffectiveCapabilities (internal/domain/authorization.go): which capabilities it gives.
use jobman_control.Contracts.Sorting.{sort, insert}
use jobman_control.Domain.{
  role_capabilities, effective_capabilities, compact, granted, sort_texts, read_capabilities,
}
use jobman_control.Prelude.{
  text_lt, ℕ, max, String, Bool, true, false, ◌&&◌, ◌||◌, List, [], ◌∷◌, ◌++◌, if◌then◌else◌,
  str_eq, leb, ◌≡◌, refl, sym, ap, ◌∙◌, arith, eq_iff, any,
}

abbrev pub holds : String → List String → Bool
holds c = any (str_eq c)

holds-insert :
    (c d : String) (ds : List String) → holds c (insert text_lt d ds) ≡ (str_eq c d || holds c ds)
unfolding insert
holds-insert c d [] = refl
holds-insert c d (e ∷ es) = ground (arith, holds-insert c d es)

holds-sort : (c : String) (cs : List String) → holds c (sort text_lt cs) ≡ holds c cs
unfolding sort
holds-sort c [] = refl
holds-sort c (d ∷ ds) =
    holds-insert c d (sort text_lt ds) ∙ ap (λ b. str_eq c d || b) (holds-sort c ds)

holds-compact : (c : String) (cs : List String) → holds c (compact cs) ≡ holds c cs
unfolding compact
holds-compact c [] = refl
holds-compact c (d ∷ []) = refl
holds-compact c (d ∷ e ∷ es) = ground (arith, holds-compact c (e ∷ es), eq_iff d e)

holds-append : (c : String) (xs ys : List String) → holds c (xs ++ ys) ≡ (holds c xs || holds c ys)
holds-append c [] ys = refl
holds-append c (x ∷ xs) ys = ground (arith, holds-append c xs ys)

-- The first of four ascending steps that a capability stands on; the fifth stands for none.
abbrev pub step_of : Bool → Bool → Bool → Bool → ℕ
step_of a b c d = if a then 1 else if b then 2 else if c then 3 else if d then 4 else 5

-- The rank of the strongest role that is known, and 0 if none is.
abbrev pub rank_of : Bool → Bool → Bool → Bool → ℕ
rank_of viewer submitter operator admin =
    if admin then 4 else if operator then 3 else if submitter then 2 else if viewer then 1 else 0

abbrev pub role_rank : String → ℕ
role_rank r =
    rank_of (str_eq r "viewer") (str_eq r "submitter") (str_eq r "operator")
      (str_eq r "namespace_admin")

abbrev pub highest_rank : List String → ℕ
highest_rank [] = 0
highest_rank (r ∷ rs) = max (role_rank r) (highest_rank rs)

-- The branches of a role, by what the role is.
abbrev given :
    List String → List String → List String → List String → Bool → Bool → Bool → Bool → List String
given xs ys zs ws viewer submitter operator admin =
    if viewer || submitter || operator || admin
    then xs
      ++ (if submitter || operator || admin then ys else [])
      ++ (if operator || admin then zs else [])
      ++ (if admin then ws else [])
    else []

holds-if :
    (c : String) (b : Bool) (xs : List String) → holds c (if b then xs else []) ≡ (b && holds c xs)
holds-if c true xs = refl
holds-if c false xs = refl

holds-given :
    (c : String) (xs ys zs ws : List String) (v s o a : Bool)
    → holds c (given xs ys zs ws v s o a)
      ≡ leb (step_of (holds c xs) (holds c ys) (holds c zs) (holds c ws)) (rank_of v s o a)
holds-given c xs ys zs ws v s o a =
    holds-if c (v || s || o || a) (
      xs
      ++ (if s || o || a then ys else [])
      ++ (if o || a then zs else [])
      ++ (if a then ws else []))
    ∙ simp (holds-append, holds-if) (steps (holds c xs) (holds c ys) (holds c zs) (holds c ws))
  where
    steps :
        (x y z w : Bool)
        → ((v || s || o || a) && (x || (s || o || a) && y || (o || a) && z || a && w))
          ≡ leb (step_of x y z w) (rank_of v s o a)
    steps x y z w = ground arith

submitter_capabilities : List String
submitter_capabilities = "jobs.submit" ∷ "enrollment.create.own" ∷ []

operator_capabilities : List String
operator_capabilities = "jobs.cancel.any" ∷ "targets.operate" ∷ "audit.read" ∷ []

admin_capabilities : List String
admin_capabilities =
    "enrollment.create.any" ∷ "targets.manage" ∷ "memberships.manage" ∷ "policy.manage" ∷ []

pub least_rank : String → ℕ
least_rank c =
    step_of (holds c read_capabilities) (holds c submitter_capabilities)
      (holds c operator_capabilities) (holds c admin_capabilities)

holds-role_capabilities :
    (c r : String) → holds c (role_capabilities r) ≡ leb (least_rank c) (role_rank r)
unfolding role_capabilities least_rank submitter_capabilities operator_capabilities
    admin_capabilities
holds-role_capabilities c r =
    holds-given c read_capabilities submitter_capabilities operator_capabilities admin_capabilities
      (str_eq r "viewer") (str_eq r "submitter") (str_eq r "operator") (str_eq r "namespace_admin")

no_rank : (c : String) → leb (least_rank c) 0 ≡ false
unfolding least_rank
no_rank c =
    positive (holds c read_capabilities) (holds c submitter_capabilities)
      (holds c operator_capabilities) (holds c admin_capabilities)
  where
    positive : (x y z w : Bool) → leb (step_of x y z w) 0 ≡ false
    positive x y z w = ground arith

leb-max : (n a b : ℕ) → (leb n a || leb n b) ≡ leb n (max a b)
leb-max n a b = ground arith

holds-granted :
    (c : String) (roles : List String)
    → holds c (granted roles) ≡ leb (least_rank c) (highest_rank roles)
unfolding granted
holds-granted c [] = sym (no_rank c)
holds-granted c (r ∷ rs) =
    holds-append c (role_capabilities r) (granted rs)
    ∙ (λ i. holds-role_capabilities c r i || holds-granted c rs i)
    ∙ leb-max (least_rank c) (role_rank r) (highest_rank rs)

-- A list of roles gives what the highest of them gives.
pub holds-effective_capabilities :
    (c : String) (roles : List String)
    → holds c (effective_capabilities roles) ≡ leb (least_rank c) (highest_rank roles)
unfolding effective_capabilities sort_texts
holds-effective_capabilities c roles =
    holds-compact c (sort text_lt (granted roles))
    ∙ holds-sort c (granted roles)
    ∙ holds-granted c roles
