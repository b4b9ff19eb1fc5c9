-- ===== src/Prelude/TextOrder.antt =====
-- The order of texts is a strict total order.
use Prim.Native.String.compare
use Prim.Native.String.{String, compare, then}
use Prim.Native.Nat.{ℕ, Ordering, compare as compare_ℕ}
use Prim.Native.Char.{code}
use text.Mathlib.Text.{is_lt, is_eq, ◌==◌ as str_eq}
use text.Mathlib.TextEquality.{eq_iff}
use text.Mathlib.TextPositions.{compare_refl}
use mathlib.Core.Path.{◌≡◌, sym, ap, ◌∙◌}
use mathlib.Core.Logic.{inl, inr}
use mathlib.Core.Bool.{Bool, true, false}
use native.Mathlib.Omega.{arith}
use jobman_control.Prelude.Tests.{Bool-cases}

-- `s < t`
abbrev pub text_lt : String → String → Bool
text_lt s t = is_lt (compare s t)

first_lt :
    (a b c : ℕ) (r s t : Ordering)
    → (is_lt r ≡ true → is_lt s ≡ true → is_lt t ≡ true)
    → is_lt (then (compare_ℕ a b) r) ≡ true
    → is_lt (then (compare_ℕ b c) s) ≡ true
    → is_lt (then (compare_ℕ a c) t) ≡ true
first_lt a b c r s t tail h k = ground arith

pub text_lt_trans : (s t u : String) → text_lt s t ≡ true → text_lt t u ≡ true → text_lt s u ≡ true
text_lt_trans String.[] String.[] u h k = cc
text_lt_trans (String.◌∷◌ c s) String.[] u h k = cc (compare.cons-nil c s)
text_lt_trans s (String.◌∷◌ d t) String.[] h k = cc (compare.cons-nil d t)
text_lt_trans String.[] (String.◌∷◌ d t) (String.◌∷◌ e u) h k = ap is_lt (compare.nil-cons e u)
text_lt_trans (String.◌∷◌ c s) (String.◌∷◌ d t) (String.◌∷◌ e u) h k =
    ap is_lt (compare.cons-cons c e s u)
    ∙ first_lt (code c) (code d) (code e) (compare s t) (compare t u) (compare s u)
        (text_lt_trans s t u) (sym (ap is_lt (compare.cons-cons c d s t)) ∙ h)
        (sym (ap is_lt (compare.cons-cons d e t u)) ∙ k)

pub text_lt_irrefl : (s : String) → text_lt s s ≡ false
text_lt_irrefl s = ap is_lt (compare_refl s)

pub text_lt-asym : (s t : String) → text_lt s t ≡ true → text_lt t s ≡ false
text_lt-asym s t h = elim (Bool-cases (text_lt t s)) [
  | inl k ↦ cc (text_lt_trans s t s h k, text_lt_irrefl s)
  | inr e ↦ e
]

first_total :
    (a b : ℕ) (r s : Ordering)
    → (is_lt r ≡ false → is_lt s ≡ false → is_eq r ≡ true)
    → is_lt (then (compare_ℕ a b) r) ≡ false
    → is_lt (then (compare_ℕ b a) s) ≡ false
    → is_eq (then (compare_ℕ a b) r) ≡ true
first_total a b r s tail h k = ground arith

text_total_eq : (s t : String) → text_lt s t ≡ false → text_lt t s ≡ false → str_eq s t ≡ true
text_total_eq String.[] String.[] h k = ap is_eq (compare.nil-nil)
text_total_eq String.[] (String.◌∷◌ d t) h k = cc (compare.nil-cons d t)
text_total_eq (String.◌∷◌ c s) String.[] h k = cc (compare.nil-cons c s)
text_total_eq (String.◌∷◌ c s) (String.◌∷◌ d t) h k =
    ap is_eq (compare.cons-cons c d s t)
    ∙ first_total (code c) (code d) (compare s t) (compare t s) (text_total_eq s t)
        (sym (ap is_lt (compare.cons-cons c d s t)) ∙ h)
        (sym (ap is_lt (compare.cons-cons d c t s)) ∙ k)

pub text_lt-total : (s t : String) → text_lt s t ≡ false → text_lt t s ≡ false → s ≡ t
text_lt-total s t h k = (eq_iff s t).0 (text_total_eq s t h k)
