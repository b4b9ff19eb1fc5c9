-- ===== src/Contracts/Paths.antt =====
-- contracts/jobman/v1alpha1/validate.go: validateLogicalPath and validateLogicalURI, on code points.
pub mod Segments
pub mod Accepted
use jobman_control.Contracts.Names.{Reason, strip_prefix, validate_name}
use jobman_control.Prelude.{
  ℕ, String, Bool, true, false, ◌&&◌, ◌||◌, not, Option, List, [], ◌∷◌, ◌++◌, if◌then◌else◌, ◌==◌,
  any, str_eq, Result, ok, ◌>>=◌, ◌>>◌, refuse, or_fail, codes,
}

abbrev pub slash : ℕ
slash = 47

abbrev pub codes_eq : List ℕ → List ℕ → Bool
codes_eq [] [] = true
codes_eq [] (d ∷ ds) = false
codes_eq (c ∷ cs) [] = false
codes_eq (c ∷ cs) (d ∷ ds) = c == d && codes_eq cs ds

abbrev pub start_with : ℕ → List (List ℕ) → List (List ℕ)
start_with c [] = (c ∷ []) ∷ []
start_with c (s ∷ ss) = (c ∷ s) ∷ ss

-- strings.Split at slashes
unfoldable pub split : List ℕ → List (List ℕ)
split [] = [] ∷ []
split (c ∷ cs) = let rest = split cs in if c == slash then [] ∷ rest else start_with c rest

-- strings.Join with slashes
unfoldable pub join : List (List ℕ) → List ℕ
join [] = []
join (s ∷ []) = s
join (s ∷ t ∷ ts) = s ++ slash ∷ join (t ∷ ts)

abbrev pub is_dot : List ℕ → Bool
is_dot s = codes_eq s (46 ∷ [])

abbrev pub is_dot_dot : List ℕ → Bool
is_dot_dot s = codes_eq s (46 ∷ 46 ∷ [])

abbrev pub is_empty {ℓ} : {A : Type ℓ} → List A → Bool
is_empty [] = true
is_empty (x ∷ xs) = false

-- The elements that path.Clean keeps of a rooted path, the last one first: empty ones and dots are
-- dropped, and two dots drop the element before.
unfoldable pub clean_onto : List (List ℕ) → List (List ℕ) → List (List ℕ)
clean_onto kept [] = kept
clean_onto kept (s ∷ ss) =
    clean_onto
      (if is_empty s || is_dot s
        then kept
        else if is_dot_dot s
        then elim kept [ [] ↦ [] | k ∷ ks ↦ ks ]
        else s ∷ kept)
      ss

abbrev pub reverse_onto {ℓ} : {A : Type ℓ} → List A → List A → List A
reverse_onto acc [] = acc
reverse_onto acc (x ∷ xs) = reverse_onto (x ∷ acc) xs

-- path.Clean("/" + remainder) without its first slash.
unfoldable pub clean_rooted : List ℕ → List ℕ
unfolding split join clean_onto
clean_rooted remainder = join (reverse_onto [] (clean_onto [] (split remainder)))

abbrev pub is_bad_segment : List ℕ → Bool
is_bad_segment s = is_empty s || is_dot s || is_dot_dot s

unfoldable pub validate_remainder : List ℕ → Result Reason (Unit {0})
unfolding clean_rooted
validate_remainder [] = ok tt
validate_remainder (c ∷ cs) =
    refuse (not (codes_eq (clean_rooted (c ∷ cs)) (c ∷ cs))) "path is not normalized"
    >> refuse (any is_bad_segment (split (c ∷ cs))) "contains an invalid path segment"

-- Backslash and NUL.
abbrev pub is_bad_code : ℕ → Bool
is_bad_code c = c == 92 || c == 0

unfoldable pub validate_logical_path : List ℕ → List ℕ → Result Reason (Unit {0})
unfolding strip_prefix validate_remainder
validate_logical_path value root = do
  remainder ← or_fail (strip_prefix (root ++ 58 ∷ slash ∷ []) value) "must use the logical root"
  refuse (any is_bad_code value) "contains an invalid path character"
  validate_remainder remainder

-- What url.Parse returns, as far as it is read.
pub record ParsedUrl : Type 0 where
  pub scheme : String
  pub host : String
  pub has_user : Bool
  pub raw_query : String
  pub fragment : String
  pub path : String

abbrev pub trim_slash : List ℕ → List ℕ
trim_slash [] = []
trim_slash (c ∷ cs) = if c == slash then cs else c ∷ cs

abbrev pub contains_zero : List ℕ → Bool
contains_zero = any (λ c. c == 0)

-- `parsed` is none where url.Parse fails.
unfoldable pub validate_logical_uri : Option ParsedUrl → String → Result Reason (Unit {0})
unfolding validate_name split
validate_logical_uri parsed scheme = do
  u ← or_fail parsed "must be a URI without credentials, query, or fragment"
  refuse
      (not (str_eq u.scheme scheme)
        || str_eq u.host ""
        || u.has_user
        || not (str_eq u.raw_query "")
        || not (str_eq u.fragment ""))
      "must be a URI without credentials, query, or fragment"
  validate_name u.host
  refuse (str_eq u.path "" || str_eq u.path "/") "URI path is required"
  refuse (any (λ s. is_bad_segment s || contains_zero s) (split (trim_slash (codes u.path))))
      "URI contains an invalid path segment"
