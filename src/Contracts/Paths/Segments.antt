-- ===== src/Contracts/Paths/Segments.antt =====
-- contracts/jobman/v1alpha1/validate.go: paths and their segments.
use jobman_control.Contracts.Paths.{
  slash, codes_eq, start_with, split, join, clean_onto, reverse_onto, clean_rooted, is_bad_segment,
}
use mathlib.Core.List.{append-nil}
use jobman_control.Prelude.{
  ℕ, true, false, List, [], ◌∷◌, ◌++◌, ◌==◌, any, All, ◌≡◌, refl, sym, ap, ◌∙◌, arith, ==_iff, ◌↔◌,
  Bool-cases, inl, inr,
}

pub codes_eq_iff : (cs ds : List ℕ) → (codes_eq cs ds ≡ true) ↔ (cs ≡ ds)
codes_eq_iff [] [] = ((λ _. refl), (λ _. refl))
codes_eq_iff [] (d ∷ ds) = ground arith
codes_eq_iff (c ∷ cs) [] = ground arith
codes_eq_iff (c ∷ cs) (d ∷ ds) = ground (arith, codes_eq_iff cs ds)

abbrev pub NoSlash : List ℕ → Type 0
NoSlash s = any (λ c. c == slash) s ≡ false

split-cons : (cs : List ℕ) → (s : List ℕ) × (ss : List (List ℕ)) × (split cs ≡ s ∷ ss)
unfolding split
split-cons [] = ([], [], refl)
split-cons (c ∷ cs) =
    let (s, ss, e) = split-cons cs in
    elim (Bool-cases (c == slash)) [
      | inl h ↦ ([], split cs, rw h)
      | inr h ↦ (c ∷ s, ss, rw h (ap (start_with c) e))
    ]

join-start : (c : ℕ) (s : List ℕ) (ss : List (List ℕ)) → join ((c ∷ s) ∷ ss) ≡ c ∷ join (s ∷ ss)
unfolding join
join-start c s [] = refl
join-start c s (t ∷ ts) = refl

start_with-NoSlash :
    (c : ℕ) (ss : List (List ℕ))
    → (c == slash) ≡ false
    → All NoSlash ss
    → All NoSlash (start_with c ss)
start_with-NoSlash c [] h a = (ground arith, tt)
start_with-NoSlash c (s ∷ ss) h a = (ground (arith, a.0), a.1)

-- A path is put together again from its segments.
pub join-split : (cs : List ℕ) → join (split cs) ≡ cs
unfolding join split
join-split [] = refl
join-split (c ∷ cs) =
    let (s, ss, e) = split-cons cs in
    let whole = ap join (sym e) ∙ join-split cs in
    elim (Bool-cases (c == slash)) [
      | inl h ↦ rw h (
          ap (λ r. join ([] ∷ r)) e
          ∙ ap (λ l. slash ∷ l) whole
          ∙ ap (λ d. d ∷ cs) (sym ((==_iff c slash).0 h)))
      | inr h ↦ rw h (ap (λ r. join (start_with c r)) e ∙ join-start c s ss ∙ ap (λ l. c ∷ l) whole)
    ]

pub split-NoSlash : (cs : List ℕ) → All NoSlash (split cs)
unfolding split
split-NoSlash [] = (refl, tt)
split-NoSlash (c ∷ cs) = elim (Bool-cases (c == slash)) [
  | inl h ↦ rw h (refl, split-NoSlash cs)
  | inr h ↦ rw h (start_with-NoSlash c (split cs) h (split-NoSlash cs))
]

split-append : (s cs : List ℕ) → NoSlash s → split (s ++ slash ∷ cs) ≡ s ∷ split cs
unfolding split
split-append [] cs n = refl
split-append (c ∷ s) cs n = ground (arith, split-append s cs)

split_one : (s : List ℕ) → NoSlash s → split s ≡ s ∷ []
unfolding split
split_one [] n = refl
split_one (c ∷ s) n = ground (arith, split_one s)

-- Segments without slashes are found again.
pub split-join :
    (s : List ℕ) (ss : List (List ℕ)) → All NoSlash (s ∷ ss) → split (join (s ∷ ss)) ≡ s ∷ ss
unfolding join
split-join s [] n = split_one s n.0
split-join s (t ∷ ts) n = split-append s (join (t ∷ ts)) n.0 ∙ ap (λ l. s ∷ l) (split-join t ts n.1)

-- Proper segments are all kept, in their order.
clean_onto-proper :
    (kept ss : List (List ℕ))
    → any is_bad_segment ss ≡ false
    → clean_onto kept ss ≡ reverse_onto kept ss
unfolding clean_onto
clean_onto-proper kept [] h = refl
clean_onto-proper kept (s ∷ ss) h = ground (arith, clean_onto-proper (s ∷ kept) ss)

reverse_onto_twice :
    (acc kept ss : List (List ℕ))
    → reverse_onto acc (reverse_onto kept ss) ≡ reverse_onto (ss ++ acc) kept
reverse_onto_twice acc kept [] = refl
reverse_onto_twice acc kept (s ∷ ss) = reverse_onto_twice acc (s ∷ kept) ss

-- path.Clean leaves a path of proper segments as it is.
pub clean_rooted-proper :
    (s : List ℕ) (ss : List (List ℕ))
    → All NoSlash (s ∷ ss)
    → any is_bad_segment (s ∷ ss) ≡ false
    → clean_rooted (join (s ∷ ss)) ≡ join (s ∷ ss)
unfolding clean_rooted
clean_rooted-proper s ss n h =
    ap (λ l. join (reverse_onto [] (clean_onto [] l))) (split-join s ss n)
    ∙ ap (λ l. join (reverse_onto [] l)) (clean_onto-proper [] (s ∷ ss) h)
    ∙ ap join (reverse_onto_twice [] [] (s ∷ ss) ∙ append-nil (s ∷ ss))
