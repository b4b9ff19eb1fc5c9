-- ===== src/Contracts/Sorting/Reordered.antt =====
-- sort.Slice and sort.Strings: the order in which distinct elements are given does not matter.
use mathlib.Core.List.{Permᴰ}
use mathlib.Core.List.Permᴰ.{nil, cons, swap, trans}
use jobman_control.Contracts.Sorting.{insert, sort}
use jobman_control.Prelude.{
  Bool, true, false, List, [], ◌∷◌, ◌≡◌, refl, sym, ap, ◌∙◌, subst, arith, ◌⊎◌, inl, inr, All,
}

module _ {A : Type 0} (less : A → A → Bool) (asym : (x y : A) → less x y ≡ true → less y x ≡ false)
    (before : (x y z : A) → less x y ≡ true → less y z ≡ true → less x z ≡ true) where
  -- One of the two comes before the other.
  abbrev pub Comparable : A → A → Type 0
  Comparable x y = (less x y ≡ true) ⊎ (less y x ≡ true)

  abbrev pub Apart : List A → Type 0
  Apart [] = Unit
  Apart (x ∷ xs) = All (Comparable x) xs × Apart xs

  insert_in_order :
      (x y : A) (l : List A)
      → less x y ≡ true
      → insert less x (insert less y l) ≡ insert less y (insert less x l)
  unfolding insert
  insert_in_order x y [] h = ground (arith, asym x y)
  insert_in_order x y (z ∷ l) h = ground (arith, insert_in_order x y l h, asym x y, before z x y)

  insert_swap :
      (x y : A) (l : List A)
      → Comparable x y
      → insert less x (insert less y l) ≡ insert less y (insert less x l)
  insert_swap x y l (inl h) = insert_in_order x y l h
  insert_swap x y l (inr h) = sym (insert_in_order y x l h)

  All-Perm : (P : A → Type 0) {xs ys : List A} → Permᴰ xs ys → All P xs → All P ys
  All-Perm P nil a = tt
  All-Perm P (cons e p) a = (subst P e a.0, All-Perm P p a.1)
  All-Perm P (swap e f) a = (subst P f a.1.0, (subst P e a.0, a.1.1))
  All-Perm P (trans p q) a = All-Perm P q (All-Perm P p a)

  either : (x y : A) → Comparable x y → Comparable y x
  either x y (inl h) = inr h
  either x y (inr h) = inl h

  Apart-Perm : {xs ys : List A} → Permᴰ xs ys → Apart xs → Apart ys
  Apart-Perm nil a = tt
  Apart-Perm (cons {l₂ = l} e p) a =
      (subst (λ x. All (Comparable x) l) e (All-Perm (Comparable _) p a.0), Apart-Perm p a.1)
  Apart-Perm (swap {a} {b} {a'} {b'} {l} e f) h =
      subst (λ x. Apart (x ∷ b' ∷ l)) f
        (subst (λ x. Apart (b ∷ x ∷ l)) e ((either a b h.0.0, h.1.0), (h.0.1, h.1.1)))
  Apart-Perm (trans p q) a = Apart-Perm q (Apart-Perm p a)

  pub sort-Perm : {xs ys : List A} → Permᴰ xs ys → Apart xs → sort less xs ≡ sort less ys
  unfolding sort
  sort-Perm nil a = refl
  sort-Perm (cons {l₁ = k} {l₂ = l} e p) a =
      ap (λ x. insert less x (sort less k)) e ∙ ap (insert less _) (sort-Perm p a.1)
  sort-Perm (swap {a} {b} {a'} {b'} {l} e f) h =
      insert_swap a b (sort less l) h.0.0
      ∙ ap (λ x. insert less x (insert less a (sort less l))) f
      ∙ ap (λ x. insert less a' (insert less x (sort less l))) e
  sort-Perm (trans p q) a = sort-Perm p a ∙ sort-Perm q (Apart-Perm p a)
