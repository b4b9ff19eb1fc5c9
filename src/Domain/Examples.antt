-- ===== src/Domain/Examples.antt =====
-- The capabilities of an operator who is a viewer as well, with an unknown role.
use jobman_control.Contracts.Sorting.{sort}
use jobman_control.Domain.{effective_capabilities, compact, sort_texts}
use jobman_control.Domain.Grants.{highest_rank}
use jobman_control.Domain.Ladder.{capability_ladder, up_to_rank, effective_capabilities-ladder}
use jobman_control.Prelude.{String, List, [], ◌∷◌, ◌≡◌, refl}

abbrev viewing_operator : List String
viewing_operator = "viewer" ∷ "owner" ∷ "operator" ∷ []

sorts_and_compacts : compact (sort_texts ("b" ∷ "a" ∷ "b" ∷ [])) ≡ ("a" ∷ "b" ∷ [])
unfolding compact sort_texts sort
sorts_and_compacts = refl

unknown_gives_nothing : effective_capabilities ("owner" ∷ []) ≡ []
unfolding effective_capabilities
unknown_gives_nothing = refl

effective_capabilities-ladder_example :
    effective_capabilities viewing_operator
    ≡ up_to_rank (highest_rank viewing_operator) capability_ladder
effective_capabilities-ladder_example = effective_capabilities-ladder viewing_operator
