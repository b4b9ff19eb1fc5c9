-- ===== src/Contracts/Json/Numbers/Decimals.antt =====
-- contracts/jobman/v1alpha1/codec.go: the exponent of a number, printed and read back.
use jobman_control.Contracts.Json.Numbers.{
  digits_from, write_integer, read_digits, read_natural, is_digit, read_exponent,
}
use jobman_control.Prelude.{
  ℕ, zero, suc, ◌+◌, ◌/◌, ◌%◌, ◌<◌, true, some, List, [], ◌∷◌, ltb, ℤ, pos, negsuc, all, ◌≡◌, refl,
  ap, ◌∙◌, arith, Bool-cases, inl, inr,
}

read_digits-digits_from :
    (fuel n : ℕ) (after : List ℕ)
    → n < fuel
    → read_digits 0 (digits_from fuel n after) ≡ read_digits n after
unfolding digits_from read_digits
read_digits-digits_from zero n after h = elim h [ ]
read_digits-digits_from (suc fuel) n after h = elim (Bool-cases (ltb n 10)) [
  | inl e ↦ rw e (ap (λ v. read_digits v after) (omega arith))
  | inr e ↦ rw e (
      read_digits-digits_from fuel (n / 10) ((48 + n % 10) ∷ after) (ground arith)
      ∙ ap (λ v. read_digits v after) (omega arith))
]

all_digits-digits_from :
    (fuel n : ℕ) (after : List ℕ)
    → n < fuel
    → all is_digit after ≡ true
    → all is_digit (digits_from fuel n after) ≡ true
unfolding digits_from
all_digits-digits_from zero n after h d = elim h [ ]
all_digits-digits_from (suc fuel) n after h d =
    ground (arith, all_digits-digits_from fuel (n / 10) ((48 + n % 10) ∷ after))

-- Digits that are not none.
abbrev Digits : List ℕ → Type 0
Digits ds = (c : ℕ) × (cs : List ℕ) × (ds ≡ c ∷ cs) × (is_digit c ≡ true)

digits_from-Digits : (fuel n : ℕ) (after : List ℕ) → n < fuel → Digits (digits_from fuel n after)
unfolding digits_from
digits_from-Digits zero n after h = elim h [ ]
digits_from-Digits (suc fuel) n after h = elim (Bool-cases (ltb n 10)) [
  | inl e ↦ (48 + n, after, rw e, ground arith)
  | inr e ↦ rw e (digits_from-Digits fuel (n / 10) ((48 + n % 10) ∷ after) (ground arith))
]

read_natural_of :
    (ds : List ℕ) → Digits ds → all is_digit ds ≡ true → read_natural ds ≡ some (read_digits 0 ds)
read_natural_of [] d h = cc (d.2)
read_natural_of (c ∷ cs) d h = ground (arith, h)

read_natural-digits_from : (fuel n : ℕ) → n < fuel → read_natural (digits_from fuel n []) ≡ some n
unfolding read_digits
read_natural-digits_from fuel n h =
    read_natural_of (digits_from fuel n []) (digits_from-Digits fuel n [] h)
      (all_digits-digits_from fuel n [] h refl)
    ∙ ap some (read_digits-digits_from fuel n [] h)

-- A sign-free text of digits, trimmed of a plus and read.
read_positive :
    (ds : List ℕ) (v : ℕ)
    → Digits ds
    → read_natural ds ≡ some v
    → read_exponent (some ds) ≡ some (pos v)
unfolding read_exponent
read_positive [] v d h = cc (d.2)
read_positive (c ∷ cs) v d h = ground (arith, h, d.2, d.3)

read_negative :
    (ds : List ℕ) (v : ℕ)
    → read_natural ds ≡ some (suc v)
    → read_exponent (some (45 ∷ ds)) ≡ some (negsuc v)
unfolding read_exponent
read_negative ds v h = rw h

pub read_exponent-write_integer : (e : ℤ) → read_exponent (some (write_integer e)) ≡ some e
unfolding write_integer
read_exponent-write_integer (pos n) =
    read_positive (digits_from (n + 1) n []) n (digits_from-Digits (n + 1) n [] (omega arith))
      (read_natural-digits_from (n + 1) n (omega arith))
read_exponent-write_integer (negsuc n) =
    read_negative (digits_from (n + 2) (n + 1) []) n
      (read_natural-digits_from (n + 2) (n + 1) (omega arith) ∙ ap some (omega arith))
