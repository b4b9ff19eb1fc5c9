-- ===== src/Contracts/Paths/Accepted.antt =====
-- contracts/jobman/v1alpha1/validate.go: the logical paths that are accepted.
use jobman_control.Contracts.Paths.Segments.{
  NoSlash, codes_eq_iff, join-split, split-NoSlash, split-join, clean_rooted-proper,
}
use jobman_control.Contracts.Paths.{
  slash, codes_eq, split, join, is_bad_segment, is_bad_code, validate_remainder,
  validate_logical_path, clean_rooted,
}
use jobman_control.Contracts.Names.{strip_prefix}
use jobman_control.Prelude.{
  ℕ, false, not, some, List, [], ◌∷◌, ◌++◌, any, All, ok, refuse, or_fail, >>=-eq-ok, refuse-eq-ok,
  found_of, ◌≡◌, refl, sym, ap, ◌∙◌, arith, ◌↔◌,
}

-- Segments that are not empty, no dots, and hold no slash.
abbrev pub ProperSegments : List (List ℕ) → Type 0
ProperSegments ss = All NoSlash ss × (any is_bad_segment ss ≡ false)

strip_prefix_iff : (p cs rest : List ℕ) → (strip_prefix p cs ≡ some rest) ↔ (cs ≡ p ++ rest)
unfolding strip_prefix
strip_prefix_iff [] cs rest = ground arith
strip_prefix_iff (p ∷ ps) [] rest = ground arith
strip_prefix_iff (p ∷ ps) (c ∷ cs) rest = ground (arith, strip_prefix_iff ps cs rest)

empty_remainder : validate_remainder [] ≡ ok tt
unfolding validate_remainder
empty_remainder = refl

validate_remainder_of :
    (cs : List ℕ)
    → clean_rooted cs ≡ cs
    → any is_bad_segment (split cs) ≡ false
    → validate_remainder cs ≡ ok tt
unfolding validate_remainder
validate_remainder_of [] c b = refl
validate_remainder_of (d ∷ ds) c b = rw ((codes_eq_iff (clean_rooted (d ∷ ds)) (d ∷ ds)).1 c) (rw b)

validate_remainder-join :
    (ss : List (List ℕ)) → ProperSegments ss → validate_remainder (join ss) ≡ ok tt
unfolding join
validate_remainder-join [] h = empty_remainder
validate_remainder-join (s ∷ ss) h =
    validate_remainder_of (join (s ∷ ss)) (clean_rooted-proper s ss h.0 h.1)
      (ap (any is_bad_segment) (split-join s ss h.0) ∙ h.1)

validate_remainder-Proper :
    (cs : List ℕ)
    → validate_remainder cs ≡ ok tt
    → (ss : List (List ℕ)) × ProperSegments ss × (cs ≡ join ss)
unfolding validate_remainder join
validate_remainder-Proper [] h = ([], (tt, refl), refl)
validate_remainder-Proper (c ∷ cs) h =
    let (_, _, segments) =
      >>=-eq-ok (refuse (not (codes_eq (clean_rooted (c ∷ cs)) (c ∷ cs))) "path is not normalized")
        _ h in
    (
      split (c ∷ cs),
      (
        split-NoSlash (c ∷ cs),
        refuse-eq-ok (any is_bad_segment (split (c ∷ cs))) "contains an invalid path segment"
            segments,
      ),
      sym (join-split (c ∷ cs)),
    )

-- A logical path is accepted exactly when it holds no backslash and no NUL and is the root followed by
-- proper segments, joined by slashes: none that is empty or a dot or two dots, so that it names a
-- place below the root.
pub validate_logical_path-Proper :
    (value root : List ℕ)
    → (validate_logical_path value root ≡ ok tt) ↔ (
        (any is_bad_code value ≡ false)
        × ((ss : List (List ℕ)) × ProperSegments ss
            × (value ≡ (root ++ 58 ∷ slash ∷ []) ++ join ss)))
unfolding validate_logical_path
validate_logical_path-Proper value root = (
  (λ h.
      let prefix = root ++ 58 ∷ slash ∷ [] in
      let (remainder, found, codes_ok) =
        >>=-eq-ok (or_fail (strip_prefix prefix value) "must use the logical root") _ h in
      let (_, clear, rest) =
        >>=-eq-ok (refuse (any is_bad_code value) "contains an invalid path character") _
          codes_ok in
      let (ss, proper, e) = validate_remainder-Proper remainder rest in
      (
        refuse-eq-ok (any is_bad_code value) "contains an invalid path character" clear,
        (
          ss,
          proper,
          (strip_prefix_iff prefix value remainder).0
                (found_of (strip_prefix prefix value) "must use the logical root" remainder found)
              ∙ ap (λ l. prefix ++ l) e,
        ),
      )),
  (λ (clear, (ss, proper, e)).
      rw ((strip_prefix_iff (root ++ 58 ∷ slash ∷ []) value (join ss)).1 e, clear)
        (validate_remainder-join ss proper)),
)
