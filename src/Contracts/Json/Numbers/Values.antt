-- ===== src/Contracts/Json/Numbers/Values.antt =====
-- contracts/jobman/v1alpha1/codec.go: normalizeJSONNumber writes the number that it read.
use jobman_control.Contracts.Json.Numbers.{
  Decimal, leading_zeros, drop_zeros, trim_zeros, adjusted, write_decimal, write_significant,
  read_digits, read_decimal, read_unsigned, normalize_json_number, is_digit,
}
use jobman_control.Contracts.Json.Numbers.Canonical.{
  keep, parts, read_decimal-written, Significant-digits, Significant, normalize_of_read,
}
use jobman_control.Prelude.{
  ℕ, zero, suc, ◌+◌, ◌-◌, ◌*◌, true, false, List, [], ◌∷◌, ◌++◌, length, length-append, ◌==◌, pos,
  ◌≡◌, refl, sym, ap, ◌∙◌, arith, some, all, ◌⊎◌, Bool-cases, inl, inr, ◌+ℤ◌, sub_ℕ, +ℤ_parts,
  eq_of_parts, pos_part, neg_part,
}

-- `n` times ten to the power of `k`.
abbrev pub shifted : ℕ → ℕ → ℕ
shifted zero n = n
shifted (suc k) n = shifted k (n * 10)

abbrev zeros : ℕ → List ℕ
zeros zero = []
zeros (suc k) = 48 ∷ zeros k

read_digits-drop_zeros : (ds : List ℕ) → read_digits 0 (drop_zeros ds) ≡ read_digits 0 ds
unfolding read_digits drop_zeros
read_digits-drop_zeros [] = refl
read_digits-drop_zeros (c ∷ cs) = elim (Bool-cases (c == 48)) [
  | inl e ↦ rw e (read_digits-drop_zeros cs ∙ ap (λ u. read_digits u cs) (ground arith))
  | inr e ↦ rw e
]

length-drop_zeros : (ds : List ℕ) → length ds ≡ leading_zeros ds + length (drop_zeros ds)
unfolding drop_zeros leading_zeros
length-drop_zeros [] = omega arith
length-drop_zeros (c ∷ cs) = ground (arith, length-drop_zeros cs)

trimmed_step :
    (c : ℕ) (cs ds : List ℕ) (k : ℕ)
    → cs ≡ ds ++ zeros k
    → (j : ℕ) × (c ∷ cs ≡ keep c ds ++ zeros j)
trimmed_step c cs [] k h = elim (Bool-cases (c == 48)) [
  | inl e ↦ (suc k, rw e (ground (arith, e, h)))
  | inr e ↦ (k, rw e (ap (λ l. c ∷ l) h))
]
trimmed_step c cs (d ∷ ds) k h = (k, ap (λ l. c ∷ l) h)

-- The zeros that are trimmed.
trimmed : (ds : List ℕ) → (k : ℕ) × (ds ≡ trim_zeros ds ++ zeros k)
unfolding trim_zeros
trimmed [] = (0, refl)
trimmed (c ∷ cs) = let (k, e) = trimmed cs in trimmed_step c cs (trim_zeros cs) k e

read_digits-append :
    (v : ℕ) (xs ys : List ℕ) → read_digits v (xs ++ ys) ≡ read_digits (read_digits v xs) ys
unfolding read_digits
read_digits-append v [] ys = refl
read_digits-append v (x ∷ xs) ys = read_digits-append (v * 10 + (x - 48)) xs ys

read_digits-zeros : (k v : ℕ) → read_digits v (zeros k) ≡ shifted k v
unfolding read_digits
read_digits-zeros zero v = refl
read_digits-zeros (suc k) v =
    ap (λ u. read_digits u (zeros k)) (omega arith) ∙ read_digits-zeros k (v * 10)

length-zeros : (k : ℕ) → length (zeros k) ≡ k
length-zeros zero = refl
length-zeros (suc k) = ap suc (length-zeros k)

sub_ℕ_parts : (a b : ℕ) → pos_part (sub_ℕ a b) + b ≡ neg_part (sub_ℕ a b) + a
sub_ℕ_parts a b = ground arith

adjusted_lem :
    (d : Decimal)
    → adjusted d
      ≡ d.exponent +ℤ sub_ℕ (length d.integer) (leading_zeros (d.integer ++ d.fraction) + 1)
unfolding adjusted
adjusted_lem d = refl

exponents :
    (d : Decimal) (n k : ℕ)
    → length (drop_zeros (d.integer ++ d.fraction)) ≡ suc n + k
    → adjusted d +ℤ pos (length d.fraction) ≡ d.exponent +ℤ pos (n + k)
exponents d n k h =
    let shift = sub_ℕ (length d.integer) (leading_zeros (d.integer ++ d.fraction) + 1) in
    ap (λ e. e +ℤ pos (length d.fraction)) (adjusted_lem d)
    ∙ eq_of_parts ((d.exponent +ℤ shift) +ℤ pos (length d.fraction)) (d.exponent +ℤ pos (n + k)) (
        omega (
          arith,
          h,
          +ℤ_parts d.exponent shift,
          +ℤ_parts (d.exponent +ℤ shift) (pos (length d.fraction)),
          +ℤ_parts d.exponent (pos (n + k)),
          sub_ℕ_parts (length d.integer) (leading_zeros (d.integer ++ d.fraction) + 1),
          length-drop_zeros (d.integer ++ d.fraction),
          length-append d.integer d.fraction,
        ))

-- A mantissa is its significant digits and zeros that the exponent makes up for.
adjusted-value :
    (d : Decimal) (first : ℕ) (others : List ℕ)
    → trim_zeros (drop_zeros (d.integer ++ d.fraction)) ≡ first ∷ others
    → (k : ℕ) × (read_digits 0 (d.integer ++ d.fraction)
        ≡ shifted k (read_digits 0 (first ∷ others)))
      × (adjusted d +ℤ pos (length d.fraction) ≡ d.exponent +ℤ pos (length others + k))
adjusted-value d first others h =
    let ds = d.integer ++ d.fraction in
    let (k, e) = trimmed (drop_zeros ds) in
    let whole = e ∙ ap (λ l. l ++ zeros k) h in
    (
      k,
      sym (read_digits-drop_zeros ds)
          ∙ ap (read_digits 0) whole
          ∙ read_digits-append 0 (first ∷ others) (zeros k)
          ∙ read_digits-zeros k (read_digits 0 (first ∷ others)),
      exponents d (length others) k (
          ap length whole
          ∙ length-append (first ∷ others) (zeros k)
          ∙ ap (λ z. length (first ∷ others) + z) (length-zeros k)),
    )

-- The digits of a mantissa, read as one number.
abbrev pub mantissa_value : Decimal → ℕ
mantissa_value d = read_digits 0 (d.integer ++ d.fraction)

-- Two decimals of the same value: both zero, or of one sign, the first mantissa the second one times a
-- power of ten that the exponents make up for.
abbrev pub SameNumber : Decimal → Decimal → Type 0
SameNumber d d' =
    ((mantissa_value d ≡ 0) × (mantissa_value d' ≡ 0))
    ⊎ (d'.negative ≡ d.negative)
      × ((k : ℕ) × (mantissa_value d ≡ shifted k (mantissa_value d'))
          × (d'.exponent +ℤ pos (length d.fraction) ≡ d.exponent +ℤ pos (length d'.fraction + k)))

shifted-zero : (k : ℕ) → shifted k 0 ≡ 0
shifted-zero zero = refl
shifted-zero (suc k) = ap (shifted k) (omega arith) ∙ shifted-zero k

abbrev Reread : Decimal → List ℕ → Type 0
Reread d written = (d' : Decimal) × (read_decimal written ≡ some d') × SameNumber d d'

written-SameNumber :
    (d : Decimal) (ds : List ℕ)
    → trim_zeros (drop_zeros (d.integer ++ d.fraction)) ≡ ds
    → Significant ds
    → Reread d (write_significant d.negative (adjusted d) ds)
unfolding write_significant read_decimal read_unsigned read_digits
written-SameNumber d [] h s =
    let (k, e) = trimmed (drop_zeros (d.integer ++ d.fraction)) in
    (
      record { negative = false; integer = 48 ∷ []; fraction = []; exponent = pos 0 },
      refl,
      inl (
        sym (read_digits-drop_zeros (d.integer ++ d.fraction))
            ∙ ap (read_digits 0) (e ∙ ap (λ l. l ++ zeros k) h)
            ∙ read_digits-zeros k 0
            ∙ shifted-zero k,
        omega arith,
      ),
    )
written-SameNumber d (first ∷ others) h s =
    let (k, digits, exponent) = adjusted-value d first others h in
    (
      parts d.negative first others (adjusted d),
      read_decimal-written d.negative first others (adjusted d) (ground (arith, s.2))
          (ground (arith, s.2)),
      inr (refl, (k, digits, exponent)),
    )

-- A number whose mantissa holds digits only is rewritten to one that reads as the same number.
pub normalize_json_number-SameNumber :
    (value : List ℕ) (d : Decimal)
    → read_decimal value ≡ some d
    → all is_digit (d.integer ++ d.fraction) ≡ true
    → (canonical : List ℕ) × (d' : Decimal) × (normalize_json_number value ≡ some canonical)
      × (read_decimal canonical ≡ some d')
      × SameNumber d d'
unfolding write_decimal
normalize_json_number-SameNumber value d h digits =
    let (d', reads, same) =
      written-SameNumber d (trim_zeros (drop_zeros (d.integer ++ d.fraction))) refl
        (Significant-digits (d.integer ++ d.fraction) digits) in
    (write_decimal d, d', normalize_of_read value d h, reads, same)
