-- ===== src/Contracts/Sorting.antt =====
-- sort.Slice and sort.Strings, which the contracts' normalization uses, as an insertion sort: sort.Slice
-- may order elements with the same name otherwise when it has more than twelve.
pub mod Reordered
use jobman_control.Prelude.{
  Bool, true, false, List, [], ◌∷◌, if◌then◌else◌, ◌≡◌, refl, ap, ◌∙◌, Bool-cases, inl, inr,
}

module _ {ℓ} {A : Type ℓ} (less : A → A → Bool) where
  unfoldable pub insert : A → List A → List A
  insert x [] = x ∷ []
  insert x (y ∷ ys) = let rest = insert x ys in if less y x then y ∷ rest else x ∷ y ∷ ys

  unfoldable pub sort : List A → List A
  unfolding insert
  sort [] = []
  sort (x ∷ xs) = insert x (sort xs)

  -- No element comes before one that is less.
  abbrev pub IsSorted : List A → Type 0
  IsSorted [] = Unit
  IsSorted (x ∷ []) = Unit
  IsSorted (x ∷ y ∷ ys) = (less y x ≡ false) × IsSorted (y ∷ ys)

  pub sort_of_sorted : (xs : List A) → IsSorted xs → sort xs ≡ xs
  unfolding sort
  sort_of_sorted [] h = refl
  sort_of_sorted (x ∷ []) h = refl
  sort_of_sorted (x ∷ y ∷ ys) h = ap (insert x) (sort_of_sorted (y ∷ ys) h.1) ∙ rw (h.0, insert)

  module _ (asym : (x y : A) → less x y ≡ true → less y x ≡ false) where
    insert-IsSorted_after :
        (x y : A) (ys : List A) → less y x ≡ true → IsSorted (y ∷ ys) → IsSorted (y ∷ insert x ys)
    unfolding insert
    insert-IsSorted_after x y [] e h = (asym y x e, tt)
    insert-IsSorted_after x y (z ∷ zs) e h = elim (Bool-cases (less z x)) [
      | inl k ↦ rw k (h.0, insert-IsSorted_after x z zs k h.1)
      | inr k ↦ rw k (asym y x e, (k, h.1))
    ]

    insert-IsSorted : (x : A) (ys : List A) → IsSorted ys → IsSorted (insert x ys)
    unfolding insert
    insert-IsSorted x [] h = tt
    insert-IsSorted x (y ∷ ys) h = elim (Bool-cases (less y x)) [
      | inl e ↦ rw e (insert-IsSorted_after x y ys e h)
      | inr e ↦ rw e (e, h)
    ]

    pub sort-IsSorted : (xs : List A) → IsSorted (sort xs)
    unfolding sort
    sort-IsSorted [] = tt
    sort-IsSorted (x ∷ xs) = insert-IsSorted x (sort xs) (sort-IsSorted xs)

    pub sort_again : (xs : List A) → sort (sort xs) ≡ sort xs
    sort_again xs = sort_of_sorted (sort xs) (sort-IsSorted xs)
