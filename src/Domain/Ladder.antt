-- ===== src/Domain/Ladder.antt =====
-- EffectiveCapabilities (internal/domain/authorization.go): its result as a list.
use jobman_control.Contracts.Sorting.{IsSorted, sort, sort-IsSorted}
use jobman_control.Domain.{effective_capabilities, compact, granted, sort_texts, role_capabilities}
use jobman_control.Domain.Grants.{holds, highest_rank, least_rank, holds-effective_capabilities}
use jobman_control.Prelude.{
  text_lt, text_lt_trans, text_lt_irrefl, text_lt-asym, text_lt-total, ℕ, ◌≤◌, String, Bool, true,
  false, List, [], ◌∷◌, if◌then◌else◌, str_eq, leb, ◌≡◌, refl, sym, ap, ◌∙◌, ◌⊎◌, inl, inr, arith,
  eq_iff, eq_refl, All, Bool-cases,
}

-- A sorted list of distinct texts.
abbrev pub IsAscending : List String → Type 0
IsAscending [] = Unit
IsAscending (x ∷ xs) = All (λ y. text_lt x y ≡ true) xs × IsAscending xs

lt_le_trans : (c d e : String) → text_lt c d ≡ true → text_lt e d ≡ false → text_lt c e ≡ true
lt_le_trans c d e h k = elim (Bool-cases (text_lt d e)) [
  | inl less ↦ text_lt_trans c d e h less
  | inr same ↦ rw (text_lt-total d e same k) at h
]

above_sorted :
    (c d : String) (ds : List String)
    → text_lt c d ≡ true
    → IsSorted text_lt (d ∷ ds)
    → All (λ y. text_lt c y ≡ true) (d ∷ ds)
above_sorted c d [] h s = (h, tt)
above_sorted c d (e ∷ es) h s = (h, above_sorted c e es (lt_le_trans c d e h s.0) s.1)

All-compact : (P : String → Type 0) (cs : List String) → All P cs → All P (compact cs)
unfolding compact
All-compact P [] h = tt
All-compact P (c ∷ []) h = h
All-compact P (c ∷ d ∷ ds) h = elim (Bool-cases (str_eq c d)) [
  | inl same ↦ rw same (All-compact P (d ∷ ds) h.1)
  | inr other ↦ rw other (h.0, All-compact P (d ∷ ds) h.1)
]

less_of_other : (c d : String) → text_lt d c ≡ false → str_eq c d ≡ false → text_lt c d ≡ true
less_of_other c d h k = elim (Bool-cases (text_lt c d)) [
  | inl less ↦ less
  | inr not_less ↦
      let same : str_eq c d ≡ true = (eq_iff c d).1 (text_lt-total c d not_less h) in cc
]

-- slices.Compact of a sorted list keeps no repetition.
compact-IsAscending : (cs : List String) → IsSorted text_lt cs → IsAscending (compact cs)
unfolding compact
compact-IsAscending [] s = tt
compact-IsAscending (c ∷ []) s = (tt, tt)
compact-IsAscending (c ∷ d ∷ ds) s = elim (Bool-cases (str_eq c d)) [
  | inl same ↦ rw same (compact-IsAscending (d ∷ ds) s.1)
  | inr other ↦
      let above = above_sorted c d ds (less_of_other c d s.0 other) s.1 in
      rw other
        (All-compact (λ y. text_lt c y ≡ true) (d ∷ ds) above, compact-IsAscending (d ∷ ds) s.1)
]

effective_capabilities-IsAscending :
    (roles : List String) → IsAscending (effective_capabilities roles)
unfolding effective_capabilities sort_texts
effective_capabilities-IsAscending roles =
    compact-IsAscending (sort text_lt (granted roles))
      (sort-IsSorted text_lt text_lt-asym (granted roles))

not_held : (c : String) (xs : List String) → All (λ y. text_lt c y ≡ true) xs → holds c xs ≡ false
not_held c [] h = refl
not_held c (x ∷ xs) h =
    let other : str_eq c x ≡ false = apart (str_eq c x) refl in rw other (not_held c xs h.1)
  where
    apart : (b : Bool) → str_eq c x ≡ b → str_eq c x ≡ false
    apart false e = e
    apart true e =
        let less : text_lt c c ≡ true = rw (sym ((eq_iff c x).0 e)) at h.0 in
        cc (less, text_lt_irrefl c)

-- An ascending list does not begin below another one with the same texts.
not_below :
    (x y : String) (xs ys : List String)
    → IsAscending (y ∷ ys)
    → holds x (x ∷ xs) ≡ holds x (y ∷ ys)
    → text_lt x y ≡ false
not_below x y xs ys h same = elim (Bool-cases (text_lt x y)) [
  | inr e ↦ e
  | inl less ↦
      let missing = not_held x (y ∷ ys) (less, above_all x y ys less h.0) in
      let there : holds x (x ∷ xs) ≡ true = rw (eq_refl x) refl in cc (missing, there, same)
]
  where
    above_all :
        (x y : String) (ys : List String)
        → text_lt x y ≡ true
        → All (λ z. text_lt y z ≡ true) ys
        → All (λ z. text_lt x z ≡ true) ys
    above_all x y [] b h = tt
    above_all x y (z ∷ zs) b h = (text_lt_trans x y z b h.0, above_all x y zs b h.1)

-- Two ascending lists with the same texts are equal.
ascending_unique :
    (xs ys : List String)
    → IsAscending xs
    → IsAscending ys
    → ((c : String) → holds c xs ≡ holds c ys)
    → xs ≡ ys
ascending_unique [] [] h k same = refl
ascending_unique [] (y ∷ ys) h k same = absurd (ground (arith, same y, eq_refl y))
ascending_unique (x ∷ xs) [] h k same = absurd (ground (arith, same x, eq_refl x))
ascending_unique (x ∷ xs) (y ∷ ys) h k same =
    let first : x ≡ y =
      text_lt-total x y (not_below x y xs ys k (same x)) (not_below y x ys xs h (sym (same y))) in
    let rest : xs ≡ ys = ascending_unique xs ys h.1 k.1 (λ c. tails c (str_eq c x) refl first) in
    λ i. first i ∷ rest i
  where
    tails : (c : String) (b : Bool) → str_eq c x ≡ b → x ≡ y → holds c xs ≡ holds c ys
    tails c true e first =
        let is : c ≡ x = (eq_iff c x).0 e in
        rw is (not_held x xs h.0 ∙ sym (not_held x ys (rw first k.0)))
    tails c false e first =
        let miss : str_eq c y ≡ false = rw first at e in ground (arith, same c, e, miss)

-- The least rank of a role that has each capability, in the order of the capabilities' names: 1 for a
-- viewer, 2 for a submitter, 3 for an operator, 4 for a namespace admin.
abbrev pub capability_ladder : List (String × ℕ)
capability_ladder =
    ("artifacts.read", 1)
    ∷ ("audit.read", 3)
    ∷ ("diagnosis.request", 1)
    ∷ ("enrollment.create.any", 4)
    ∷ ("enrollment.create.own", 2)
    ∷ ("evidence.read", 1)
    ∷ ("groups.read", 1)
    ∷ ("jobs.cancel.any", 3)
    ∷ ("jobs.cancel.own", 1)
    ∷ ("jobs.read", 1)
    ∷ ("jobs.submit", 2)
    ∷ ("logs.read", 1)
    ∷ ("memberships.manage", 4)
    ∷ ("namespace.read", 1)
    ∷ ("policy.manage", 4)
    ∷ ("policy.read", 1)
    ∷ ("reports.read", 1)
    ∷ ("targets.manage", 4)
    ∷ ("targets.operate", 3)
    ∷ ("targets.read", 1)
    ∷ []

abbrev pub up_to_rank : ℕ → List (String × ℕ) → List String
up_to_rank n [] = []
up_to_rank n ((c, least) ∷ cs) = if leb least n then c ∷ up_to_rank n cs else up_to_rank n cs

-- Roles of the same highest rank give the same list.
same_rank :
    (roles roles' : List String)
    → highest_rank roles ≡ highest_rank roles'
    → effective_capabilities roles ≡ effective_capabilities roles'
same_rank roles roles' same =
    ascending_unique (effective_capabilities roles) (effective_capabilities roles')
      (effective_capabilities-IsAscending roles) (effective_capabilities-IsAscending roles')
      (λ c.
        holds-effective_capabilities c roles
        ∙ ap (leb (least_rank c)) same
        ∙ sym (holds-effective_capabilities c roles'))

rank_cases : (n : ℕ) → n ≤ 4 → (n ≡ 0) ⊎ (n ≡ 1) ⊎ (n ≡ 2) ⊎ (n ≡ 3) ⊎ (n ≡ 4)
rank_cases n h = ground arith

highest_rank-le : (roles : List String) → highest_rank roles ≤ 4
highest_rank-le [] = omega arith
highest_rank-le (r ∷ rs) = ground (arith, highest_rank-le rs)

-- EffectiveCapabilities gives exactly the capabilities whose least rank the highest of the roles
-- reaches, in the order of their names and each once. An unknown role has no rank.
pub effective_capabilities-ladder :
    (roles : List String)
    → effective_capabilities roles ≡ up_to_rank (highest_rank roles) capability_ladder
unfolding effective_capabilities role_capabilities granted sort_texts compact sort
effective_capabilities-ladder roles =
    elim (rank_cases (highest_rank roles) (highest_rank-le roles)) [
      | inl e ↦ rw e (same_rank roles [] e)
      | inr (inl e) ↦ rw e (same_rank roles ("viewer" ∷ []) e)
      | inr (inr (inl e)) ↦ rw e (same_rank roles ("submitter" ∷ []) e)
      | inr (inr (inr (inl e))) ↦ rw e (same_rank roles ("operator" ∷ []) e)
      | inr (inr (inr (inr e))) ↦ rw e (same_rank roles ("namespace_admin" ∷ []) e)
    ]
