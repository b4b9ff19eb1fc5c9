-- ===== src/Directory/Bounds.antt =====
-- What validateDirectoryBER promises, as a whole.
use jobman_control.Directory.Termination.{Elements-elements, elements_keeps_fuel}
use jobman_control.Directory.Elements.{Elements, Accepted, elements-Accepted}
use jobman_control.Directory.{validate_directory_ber, out_of_fuel}
use jobman_control.Prelude.{
  ℕ, ◌+◌, ◌≤◌, false, List, ltb, ok, err, ◌≡◌, refl, inl, inr, ◌≢◌, arith, length, Bool-cases,
}

-- The octets that are accepted are a sequence of elements nested at most to depth 16, the number
-- returned counts them, and at most 16384 are counted if there are any.
pub validate_directory_ber-Accepted :
    (d nodes m : ℕ) (xs : List ℕ)
    → validate_directory_ber d nodes xs ≡ ok m
    → (d ≤ 16) × Accepted d nodes m xs
unfolding validate_directory_ber
validate_directory_ber-Accepted d nodes m xs h = elim (Bool-cases (ltb 16 d)) [
  | inl deep ↦ cc (rw (validate_directory_ber, deep) at h)
  | inr shallow ↦ (
    ground arith,
    elements-Accepted (length xs) d nodes m xs (rw (validate_directory_ber, shallow) at h),
  )
]

-- A sequence of elements within the bounds is accepted, and counted.
pub Elements-validate_directory_ber :
    (d nodes n : ℕ) (xs : List ℕ)
    → d ≤ 16
    → Elements d xs n
    → nodes + n ≤ 16384
    → validate_directory_ber d nodes xs ≡ ok (nodes + n)
unfolding validate_directory_ber
Elements-validate_directory_ber d nodes n xs b e few =
    let shallow : ltb 16 d ≡ false = ground arith in
    rw shallow (Elements-elements (length xs) d nodes n xs e few (omega arith))

-- For all octets the validation ends: it never answers that its fuel ran out.
pub validate_directory_ber_ends :
    (d nodes : ℕ) (xs : List ℕ) → validate_directory_ber d nodes xs ≢ err out_of_fuel
unfolding validate_directory_ber
validate_directory_ber_ends d nodes xs h = elim (Bool-cases (ltb 16 d)) [
  | inl deep ↦ cc (rw (validate_directory_ber, deep) at h)
  | inr shallow ↦
      elements_keeps_fuel (length xs) d nodes xs out_of_fuel (omega arith)
        (rw (validate_directory_ber, shallow) at h) refl
]
