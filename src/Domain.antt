-- ===== src/Domain.antt =====
-- internal/domain/authorization.go: EffectiveCapabilities, with ValidRole of target.go.
pub mod Grants
pub mod Ladder
mod Examples
use jobman_control.Contracts.Sorting.{sort}
use jobman_control.Prelude.{
  text_lt, String, Bool, ◌||◌, List, [], ◌∷◌, ◌++◌, if◌then◌else◌, str_eq, any,
}

-- ValidRole
unfoldable pub valid_role : String → Bool
valid_role r =
    str_eq r "viewer" || str_eq r "submitter" || str_eq r "operator" || str_eq r "namespace_admin"

abbrev pub submits : String → Bool
submits r = str_eq r "submitter" || str_eq r "operator" || str_eq r "namespace_admin"

abbrev pub operates : String → Bool
operates r = str_eq r "operator" || str_eq r "namespace_admin"

abbrev pub read_capabilities : List String
read_capabilities =
    "namespace.read" ∷ "jobs.read" ∷ "groups.read" ∷ "targets.read" ∷ "logs.read" ∷ "artifacts.read"
    ∷ "evidence.read" ∷ "reports.read" ∷ "diagnosis.request" ∷ "policy.read" ∷ "jobs.cancel.own"
    ∷ []

-- What one role of the loop appends.
unfoldable pub role_capabilities : String → List String
unfolding valid_role
role_capabilities r =
    if valid_role r
    then read_capabilities
      ++ (if submits r then "jobs.submit" ∷ "enrollment.create.own" ∷ [] else [])
      ++ (if operates r then "jobs.cancel.any" ∷ "targets.operate" ∷ "audit.read" ∷ [] else [])
      ++ (if str_eq r "namespace_admin"
          then "enrollment.create.any" ∷ "targets.manage" ∷ "memberships.manage" ∷ "policy.manage"
            ∷ []
          else [])
    else []

unfoldable pub granted : List String → List String
unfolding role_capabilities
granted [] = []
granted (r ∷ rs) = role_capabilities r ++ granted rs

-- slices.Sort
unfoldable pub sort_texts : List String → List String
unfolding sort
sort_texts cs = sort text_lt cs

-- slices.Compact
unfoldable pub compact : List String → List String
compact [] = []
compact (c ∷ []) = c ∷ []
compact (c ∷ d ∷ ds) = let rest = compact (d ∷ ds) in if str_eq c d then rest else c ∷ rest

unfoldable pub effective_capabilities : List String → List String
unfolding granted sort_texts compact
effective_capabilities roles = compact (sort_texts (granted roles))
