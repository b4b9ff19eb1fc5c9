-- ===== src/Contracts/Json/Numbers/Canonical.antt =====
-- contracts/jobman/v1alpha1/codec.go: normalizeJSONNumber leaves its own results as they are, and keeps
-- the number.
use jobman_control.Contracts.Json.Numbers.Decimals.{read_exponent-write_integer}
use jobman_control.Contracts.Json.Numbers.{
  Decimal, is_digit, cut, is_exponent, is_point, read_exponent, assemble, read_unsigned,
  read_decimal, leading_zeros, drop_zeros, trim_zeros, write_integer, write_scientific, adjusted,
  write_decimal, write_significant, normalize_json_number,
}
use jobman_control.Prelude.{
  ℕ, zero, suc, ◌+◌, Bool, true, false, ◌&&◌, Option, none, some, List, [], ◌∷◌, ◌++◌,
  if◌then◌else◌, ◌==◌, ℤ, pos, negsuc, all, ◌≡◌, refl, ap, ◌∙◌, arith, Bool-cases, inl, inr, ◌+ℤ◌,
  sub_ℕ, +ℤ_parts, eq_of_parts,
}

-- The mantissa of digits, as it is written.
abbrev mantissa : ℕ → List ℕ → List ℕ
mantissa first others = first ∷ elim others [ [] ↦ [] | c ∷ cs ↦ 46 ∷ c ∷ cs ]

abbrev exponent_part : ℤ → List ℕ
exponent_part e = elim e [ pos zero ↦ [] | other ↦ 101 ∷ write_integer other ]

cut-digits :
    (p : ℕ → Bool) (xs ys : List ℕ)
    → ((c : ℕ) → is_digit c ≡ true → p c ≡ false)
    → all is_digit xs ≡ true
    → cut p (xs ++ ys) ≡ (xs ++ (cut p ys).0, (cut p ys).1)
unfolding cut
cut-digits p [] ys h d = refl
cut-digits p (x ∷ xs) ys h d = ground (arith, h x, cut-digits p xs ys h)

digit_is_no_exponent : (c : ℕ) → is_digit c ≡ true → is_exponent c ≡ false
digit_is_no_exponent c h = ground arith

digit_is_no_point : (c : ℕ) → is_digit c ≡ true → is_point c ≡ false
digit_is_no_point c h = ground arith

cut-exponent_part : (e : ℤ) → (cut is_exponent (exponent_part e)).0 ≡ []
unfolding cut
cut-exponent_part (pos zero) = refl
cut-exponent_part (pos (suc n)) = refl
cut-exponent_part (negsuc n) = refl

read_exponent_part : (e : ℤ) → read_exponent (cut is_exponent (exponent_part e)).1 ≡ some e
unfolding cut read_exponent
read_exponent_part (pos zero) = refl
read_exponent_part (pos (suc n)) = read_exponent-write_integer (pos (suc n))
read_exponent_part (negsuc n) = read_exponent-write_integer (negsuc n)

cut-mantissa :
    (first : ℕ) (others rest : List ℕ)
    → is_digit first ≡ true
    → all is_digit others ≡ true
    → cut is_exponent (mantissa first others ++ rest)
      ≡ (mantissa first others ++ (cut is_exponent rest).0, (cut is_exponent rest).1)
unfolding cut
cut-mantissa first [] rest f d = ground (arith, digit_is_no_exponent first)
cut-mantissa first (c ∷ cs) rest f d = ground (
  arith,
  digit_is_no_exponent first,
  digit_is_no_exponent c,
  cut-digits is_exponent cs rest digit_is_no_exponent,
)

append_nil : (xs : List ℕ) → xs ++ [] ≡ xs
append_nil [] = refl
append_nil (x ∷ xs) = ap (λ l. x ∷ l) (append_nil xs)

cut_point :
    (first : ℕ) (others : List ℕ)
    → is_digit first ≡ true
    → all is_digit others ≡ true
    → cut is_point (mantissa first others)
      ≡ (first ∷ [], elim others [ [] ↦ none | c ∷ cs ↦ some (c ∷ cs) ])
unfolding cut
cut_point first [] f d = ground (arith, digit_is_no_point first)
cut_point first (c ∷ cs) f d = ground (arith, digit_is_no_point first)

abbrev pub parts : Bool → ℕ → List ℕ → ℤ → Decimal
parts negative first others e = record {
  negative = negative;
  integer = first ∷ [];
  fraction = others;
  exponent = e;
}

assemble-parts :
    (negative : Bool) (first : ℕ) (others : List ℕ) (text : Option (List ℕ)) (e : ℤ)
    → is_digit first ≡ true
    → all is_digit others ≡ true
    → read_exponent text ≡ some e
    → assemble negative (mantissa first others, text) ≡ some (parts negative first others e)
unfolding assemble
assemble-parts negative first [] text e f d h = rw (h, assemble) (rw (cut_point first [] f d))
assemble-parts negative first (c ∷ cs) text e f d h =
    rw (h, assemble) (rw (cut_point first (c ∷ cs) f d))

read_unsigned-written :
    (negative : Bool) (first : ℕ) (others : List ℕ) (e : ℤ)
    → is_digit first ≡ true
    → all is_digit others ≡ true
    → read_unsigned negative (mantissa first others ++ exponent_part e)
      ≡ some (parts negative first others e)
unfolding read_unsigned
read_unsigned-written negative first others e f d =
    ap (assemble negative) (
      cut-mantissa first others (exponent_part e) f d
      ∙ ap (λ l. (mantissa first others ++ l, (cut is_exponent (exponent_part e)).1))
          (cut-exponent_part e)
      ∙ ap (λ l. (l, (cut is_exponent (exponent_part e)).1)) (append_nil (mantissa first others)))
    ∙ assemble-parts negative first others (cut is_exponent (exponent_part e)).1 e f d
        (read_exponent_part e)

pub read_decimal-written :
    (negative : Bool) (first : ℕ) (others : List ℕ) (e : ℤ)
    → is_digit first ≡ true
    → all is_digit others ≡ true
    → read_decimal (write_scientific negative first others e) ≡ some (parts negative first others e)
unfolding read_decimal write_scientific
read_decimal-written true first others e f d = read_unsigned-written true first others e f d
read_decimal-written false first others e f d =
    ground (arith, read_unsigned-written false first others e f d)

all-append : (xs ys : List ℕ) → all is_digit (xs ++ ys) ≡ (all is_digit xs && all is_digit ys)
all-append [] ys = refl
all-append (x ∷ xs) ys = ground (arith, all-append xs ys)

-- Digits without leading and trailing zeros.
abbrev pub Significant : List ℕ → Type 0
Significant [] = Unit
Significant (c ∷ cs) = ((c == 48) ≡ false) × (trim_zeros cs ≡ cs) × (all is_digit (c ∷ cs) ≡ true)

-- One step of `trim_zeros` back from the end.
abbrev pub keep : ℕ → List ℕ → List ℕ
keep c ds = elim ds [ [] ↦ if c == 48 then [] else c ∷ [] | d ∷ ds ↦ c ∷ d ∷ ds ]

trim_zeros-keep : (c : ℕ) (ds : List ℕ) → trim_zeros ds ≡ ds → trim_zeros (keep c ds) ≡ keep c ds
unfolding trim_zeros
trim_zeros-keep c [] h = ground arith
trim_zeros-keep c (d ∷ ds) h = ap (keep c) h

trim_zeros_again : (cs : List ℕ) → trim_zeros (trim_zeros cs) ≡ trim_zeros cs
unfolding trim_zeros
trim_zeros_again [] = refl
trim_zeros_again (c ∷ cs) = trim_zeros-keep c (trim_zeros cs) (trim_zeros_again cs)

all_digits-trim_zeros : (cs : List ℕ) → all is_digit cs ≡ true → all is_digit (trim_zeros cs) ≡ true
unfolding trim_zeros
all_digits-trim_zeros [] h = refl
all_digits-trim_zeros (c ∷ cs) h = ground (arith, all_digits-trim_zeros cs)

trim_zeros-cons :
    (c : ℕ) (cs : List ℕ) → (c == 48) ≡ false → trim_zeros (c ∷ cs) ≡ c ∷ trim_zeros cs
unfolding trim_zeros
trim_zeros-cons c cs h = ground arith

pub Significant-digits :
    (ds : List ℕ) → all is_digit ds ≡ true → Significant (trim_zeros (drop_zeros ds))
unfolding drop_zeros trim_zeros
Significant-digits [] h = tt
Significant-digits (c ∷ cs) h = elim (Bool-cases (c == 48)) [
  | inl e ↦ rw e (Significant-digits cs (ground arith))
  | inr e ↦ rw e (
      rw (trim_zeros-cons c cs e)
        (e, trim_zeros_again cs, ground (arith, all_digits-trim_zeros cs)))
]

+ℤ-zero : (e : ℤ) → e +ℤ pos 0 ≡ e
+ℤ-zero e = eq_of_parts (e +ℤ pos 0) e (omega (arith, +ℤ_parts e (pos 0)))

no_leading_zeros : (c : ℕ) (cs : List ℕ) → (c == 48) ≡ false → leading_zeros (c ∷ cs) ≡ 0
unfolding leading_zeros
no_leading_zeros c cs h = rw h

no_zeros_dropped : (c : ℕ) (cs : List ℕ) → (c == 48) ≡ false → drop_zeros (c ∷ cs) ≡ c ∷ cs
unfolding drop_zeros
no_zeros_dropped c cs h = rw h

adjusted-parts :
    (negative : Bool) (first : ℕ) (others : List ℕ) (e : ℤ)
    → (first == 48) ≡ false
    → adjusted (parts negative first others e) ≡ e
unfolding adjusted
adjusted-parts negative first others e h =
    ap (λ k. e +ℤ sub_ℕ 1 (k + 1)) (no_leading_zeros first others h) ∙ +ℤ-zero e

-- A number in canonical form is written as it was read.
write_decimal-parts :
    (negative : Bool) (first : ℕ) (others : List ℕ) (e : ℤ)
    → Significant (first ∷ others)
    → write_decimal (parts negative first others e) ≡ write_scientific negative first others e
unfolding write_decimal
write_decimal-parts negative first others e s =
    ap (write_significant negative (adjusted (parts negative first others e))) (
      ap trim_zeros (no_zeros_dropped first others s.0)
      ∙ trim_zeros-cons first others s.0
      ∙ ap (λ l. first ∷ l) s.1)
    ∙ ap (write_scientific negative first others) (adjusted-parts negative first others e s.0)

pub normalize_of_read :
    (value : List ℕ) (d : Decimal)
    → read_decimal value ≡ some d
    → normalize_json_number value ≡ some (write_decimal d)
unfolding normalize_json_number
normalize_of_read value d h = rw (h, normalize_json_number)

normalize-written :
    (negative : Bool) (e : ℤ) (ds : List ℕ)
    → Significant ds
    → normalize_json_number (write_significant negative e ds)
      ≡ some (write_significant negative e ds)
unfolding normalize_json_number
normalize-written negative e [] s = refl
normalize-written negative e (first ∷ others) s =
    normalize_of_read (write_scientific negative first others e) (parts negative first others e)
      (read_decimal-written negative first others e (ground (arith, s.2)) (ground (arith, s.2)))
    ∙ ap some (write_decimal-parts negative first others e s)

-- The mantissa of a number holds digits only.
abbrev pub IsNumber : List ℕ → Type 0
IsNumber value =
    (d : Decimal) × (read_decimal value ≡ some d) × (all is_digit (d.integer ++ d.fraction) ≡ true)

-- A number whose mantissa holds digits only has a canonical form, which is its own canonical form.
pub normalize_json_number_again :
    (value : List ℕ)
    → IsNumber value
    → (canonical : List ℕ) × (normalize_json_number value ≡ some canonical)
      × (normalize_json_number canonical ≡ some canonical)
unfolding write_decimal
normalize_json_number_again value (d, h, digits) = (
  write_decimal d,
  normalize_of_read value d h,
  normalize-written d.negative (adjusted d) (trim_zeros (drop_zeros (d.integer ++ d.fraction)))
      (Significant-digits (d.integer ++ d.fraction) digits),
)
