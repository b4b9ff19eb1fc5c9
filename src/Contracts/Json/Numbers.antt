-- ===== src/Contracts/Json/Numbers.antt =====
-- contracts/jobman/v1alpha1/codec.go: normalizeJSONNumber, on the bytes of a number.
pub mod Decimals
pub mod Canonical
pub mod Values
use jobman_control.Prelude.{
  ℕ, zero, suc, ◌+◌, ◌-◌, ◌*◌, ◌/◌, ◌%◌, Bool, true, false, ◌&&◌, ◌||◌, Option, none, some, List,
  [], ◌∷◌, ◌++◌, length, if◌then◌else◌, ◌==◌, ltb, leb, ℤ, pos, negsuc, all, ◌+ℤ◌, sub_ℕ,
}

-- The parts of a number: the bytes of its mantissa before and after the point, and its exponent.
pub record Decimal : Type 0 where
  pub negative : Bool
  pub integer : List ℕ
  pub fraction : List ℕ
  pub exponent : ℤ

abbrev pub is_digit : ℕ → Bool
is_digit c = leb 48 c && leb c 57

-- The digits of a number in base ten, the last one first on its way.
unfoldable pub digits_from : ℕ → ℕ → List ℕ → List ℕ
digits_from zero n after = after
digits_from (suc fuel) n after =
    let rest = digits_from fuel (n / 10) ((48 + n % 10) ∷ after) in
    if ltb n 10 then (48 + n) ∷ after else rest

-- big.Int.String
unfoldable pub write_integer : ℤ → List ℕ
unfolding digits_from
write_integer (pos n) = digits_from (n + 1) n []
write_integer (negsuc n) = 45 ∷ digits_from (n + 2) (n + 1) []

unfoldable pub read_digits : ℕ → List ℕ → ℕ
read_digits value [] = value
read_digits value (c ∷ cs) = read_digits (value * 10 + (c - 48)) cs

abbrev pub read_natural : List ℕ → Option ℕ
read_natural [] = none
read_natural (c ∷ cs) = if all is_digit (c ∷ cs) then some (read_digits 0 (c ∷ cs)) else none

abbrev pub negated : ℕ → ℤ
negated zero = pos 0
negated (suc n) = negsuc n

-- big.Int.SetString in base ten
unfoldable pub read_integer : List ℕ → Option ℤ
unfolding read_digits
read_integer [] = none
read_integer (c ∷ cs) =
    if c == 45
    then elim (read_natural cs) [ none ↦ none | some n ↦ some (negated n) ]
    else elim (read_natural (if c == 43 then cs else c ∷ cs)) [
      | none ↦ none
      | some n ↦ some (pos n)
    ]

-- strings.TrimPrefix of one byte
abbrev pub trim_byte : ℕ → List ℕ → List ℕ
trim_byte b [] = []
trim_byte b (c ∷ cs) = if c == b then cs else c ∷ cs

-- What lies before the first byte of a kind, and behind it if there is one.
unfoldable pub cut : (ℕ → Bool) → List ℕ → List ℕ × Option (List ℕ)
cut p [] = ([], none)
cut p (c ∷ cs) = let rest = cut p cs in if p c then ([], some cs) else (c ∷ rest.0, rest.1)

abbrev pub is_exponent : ℕ → Bool
is_exponent c = c == 101 || c == 69

abbrev pub is_point : ℕ → Bool
is_point c = c == 46

unfoldable pub read_exponent : Option (List ℕ) → Option ℤ
unfolding read_integer
read_exponent none = some (pos 0)
read_exponent (some cs) = read_integer (trim_byte 43 cs)

-- The mantissa split at its point, once the exponent is cut off.
unfoldable pub assemble : Bool → List ℕ × Option (List ℕ) → Option Decimal
unfolding cut read_exponent
assemble negative (mantissa, exponent_text) = elim (read_exponent exponent_text) [
  | none ↦ none
  | some e ↦ some (record {
    negative = negative;
    integer = (cut is_point mantissa).0;
    fraction = elim (cut is_point mantissa).1 [ none ↦ [] | some cs ↦ cs ];
    exponent = e;
  })
]

unfoldable pub read_unsigned : Bool → List ℕ → Option Decimal
unfolding cut assemble
read_unsigned negative value = assemble negative (cut is_exponent value)

unfoldable pub read_decimal : List ℕ → Option Decimal
read_decimal [] = read_unsigned false []
read_decimal (c ∷ cs) = if c == 45 then read_unsigned true cs else read_unsigned false (c ∷ cs)

unfoldable pub leading_zeros : List ℕ → ℕ
leading_zeros [] = 0
leading_zeros (c ∷ cs) = let rest = leading_zeros cs in if c == 48 then suc rest else 0

unfoldable pub drop_zeros : List ℕ → List ℕ
drop_zeros [] = []
drop_zeros (c ∷ cs) = let rest = drop_zeros cs in if c == 48 then rest else c ∷ cs

-- strings.TrimRight
unfoldable pub trim_zeros : List ℕ → List ℕ
trim_zeros [] = []
trim_zeros (c ∷ cs) = elim (trim_zeros cs) [
  | [] ↦ if c == 48 then [] else c ∷ []
  | d ∷ ds ↦ c ∷ d ∷ ds
]

-- `[-]d[.ddd][eN]`, of a number whose significant digits start with `first`.
unfoldable pub write_scientific : Bool → ℕ → List ℕ → ℤ → List ℕ
unfolding write_integer
write_scientific negative first others exponent =
    (if negative then 45 ∷ [] else [])
    ++ (first ∷ elim others [ [] ↦ [] | c ∷ cs ↦ 46 ∷ c ∷ cs ])
    ++ elim exponent [ pos zero ↦ [] | other ↦ 101 ∷ write_integer other ]

-- The exponent of the first significant digit.
unfoldable pub adjusted : Decimal → ℤ
unfolding leading_zeros ◌+ℤ◌
adjusted d = d.exponent +ℤ sub_ℕ (length d.integer) (leading_zeros (d.integer ++ d.fraction) + 1)

unfoldable pub write_significant : Bool → ℤ → List ℕ → List ℕ
unfolding write_scientific
write_significant negative exponent [] = 48 ∷ []
write_significant negative exponent (first ∷ others) =
    write_scientific negative first others exponent

unfoldable pub write_decimal : Decimal → List ℕ
unfolding drop_zeros trim_zeros write_significant adjusted
write_decimal d =
    write_significant d.negative (adjusted d) (trim_zeros (drop_zeros (d.integer ++ d.fraction)))

unfoldable pub normalize_json_number : List ℕ → Option (List ℕ)
unfolding read_decimal read_unsigned write_decimal
normalize_json_number value = elim (read_decimal value) [
  | none ↦ none
  | some d ↦ some (write_decimal d)
]
