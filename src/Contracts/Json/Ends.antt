-- ===== src/Contracts/Json/Ends.antt =====
-- contracts/jobman/v1alpha1/codec.go: decodeJSONValue ends, since every value takes a token.
use jobman_control.Contracts.Json.{
  Token, open_object, close_object, open_array, close_array, Json, Items, Members, array, object,
  no_members, has_key, add_member, more, read_key, closes_array, closes_object, decode_json_value,
  decode_members, decode_items, canonical_value, ends, Malformed, too_deep, duplicate_key,
  bad_number, out_of_fuel, ended, unexpected,
}
use jobman_control.Contracts.Json.Steps.{stop_items, stop_members, more_items, more_members}
use jobman_control.Contracts.Json.Numbers.{normalize_json_number}
use jobman_control.Prelude.{
  ℕ, zero, suc, ◌+◌, ◌*◌, ◌≤◌, ◌<◌, Bool, true, false, List, [], ◌∷◌, ltb, length, Result, ok, err,
  some, none, Option, arith, ◌≢◌, sym, subst, Bool-cases, inl, inr, err-injective, refuse, or_fail,
  ◌>>=◌, ◌>>◌,
}

-- An answer that is not for want of fuel, with fewer tokens left than a bound.
abbrev LeavesBelow {ℓ} : {A : Type ℓ} → ℕ → Result Malformed (A × List Token) → Type 0
LeavesBelow n (err e) = e ≢ out_of_fuel
LeavesBelow n (ok p) = length p.1 < n

LeavesBelow-bind {ℓ κ} :
    {A : Type ℓ} {B : Type κ} (n k : ℕ) (call : Result Malformed (A × List Token))
    (rest : A × List Token → Result Malformed (B × List Token))
    → LeavesBelow n call
    → ((p : A × List Token) → length p.1 < n → LeavesBelow k (rest p))
    → LeavesBelow k (call >>= rest)
LeavesBelow-bind n k (err e) rest h f = h
LeavesBelow-bind n k (ok p) rest h f = f p h

LeavesBelow-refuse {ℓ} :
    {A : Type ℓ} (k : ℕ) (b : Bool) (e : Malformed) (rest : Result Malformed (A × List Token))
    → e ≢ out_of_fuel
    → LeavesBelow k rest
    → LeavesBelow k (refuse b e >> rest)
LeavesBelow-refuse k true e rest h f = h
LeavesBelow-refuse k false e rest h f = f

closes_object-LeavesBelow :
    (n : ℕ) (ms : Members) (ts : List Token)
    → length ts < n
    → LeavesBelow n (closes_object ts >>= λ last. ok (object ms, last))
unfolding closes_object
closes_object-LeavesBelow n ms [] h = λ e. cc
closes_object-LeavesBelow n ms (close_object ∷ ts) h = omega arith
closes_object-LeavesBelow n ms (t ∷ ts) h = λ e. cc

closes_array-LeavesBelow :
    (n : ℕ) (xs : Items) (ts : List Token)
    → length ts < n
    → LeavesBelow n (closes_array ts >>= λ last. ok (array xs, last))
unfolding closes_array
closes_array-LeavesBelow n xs [] h = λ e. cc
closes_array-LeavesBelow n xs (close_array ∷ ts) h = omega arith
closes_array-LeavesBelow n xs (t ∷ ts) h = λ e. cc

number-LeavesBelow :
    (k : ℕ) (c : Option (List ℕ)) (ts : List Token)
    → length ts < k
    → LeavesBelow k (or_fail c bad_number >>= λ canonical. ok (Json.number canonical, ts))
number-LeavesBelow k none ts h = λ e. cc
number-LeavesBelow k (some c) ts h = h

read_key-LeavesBelow : (ts : List Token) → LeavesBelow (length ts) (read_key ts)
unfolding read_key
read_key-LeavesBelow [] = λ e. cc
read_key-LeavesBelow (Token.text k ∷ ts) = omega arith
read_key-LeavesBelow (t ∷ ts) = λ e. cc

LeavesBelow-mono {ℓ} :
    {A : Type ℓ} (n k : ℕ) (r : Result Malformed (A × List Token))
    → n ≤ k
    → LeavesBelow n r
    → LeavesBelow k r
LeavesBelow-mono n k (err e) h f = f
LeavesBelow-mono n k (ok p) h f = omega arith

decided :
    (n : ℕ) (r : Result Malformed (Json × List Token))
    → LeavesBelow n r
    → (r >>= λ (value, rest). ends rest >> ok value) ≢ err out_of_fuel
unfolding ends
decided n (err e) h = λ same. h (err-injective e out_of_fuel same)
decided n (ok (x, [])) h = λ same. cc
decided n (ok (x, t ∷ ts)) h = λ same. cc

module _ (maximum : ℕ) where
  mutual
    unfolding decode_json_value

    decode-LeavesBelow :
        (fuel depth : ℕ) (ts : List Token)
        → 2 * length ts < fuel
        → LeavesBelow (length ts) (decode_json_value fuel depth maximum ts)
    decode-LeavesBelow zero depth ts h = absurd (omega arith)
    decode-LeavesBelow (suc fuel) depth [] h =
        LeavesBelow-refuse 0 (ltb maximum depth) too_deep (err ended) (λ e. cc) (λ e. cc)
    decode-LeavesBelow (suc fuel) depth (Token.null ∷ ts) h =
        LeavesBelow-refuse (suc (length ts)) (ltb maximum depth) too_deep (ok (Json.null, ts))
          (λ e. cc) (omega arith)
    decode-LeavesBelow (suc fuel) depth (Token.boolean b ∷ ts) h =
        LeavesBelow-refuse (suc (length ts)) (ltb maximum depth) too_deep (ok (Json.boolean b, ts))
          (λ e. cc) (omega arith)
    decode-LeavesBelow (suc fuel) depth (Token.text s ∷ ts) h =
        LeavesBelow-refuse (suc (length ts)) (ltb maximum depth) too_deep (ok (Json.text s, ts))
          (λ e. cc) (omega arith)
    decode-LeavesBelow (suc fuel) depth (Token.number m ∷ ts) h =
        LeavesBelow-refuse (suc (length ts)) (ltb maximum depth) too_deep _ (λ e. cc)
          (number-LeavesBelow (suc (length ts)) (normalize_json_number m) ts (omega arith))
    decode-LeavesBelow (suc fuel) depth (open_object ∷ ts) h =
        LeavesBelow-refuse (suc (length ts)) (ltb maximum depth) too_deep _ (λ e. cc)
          (LeavesBelow-bind (suc (length ts)) (suc (length ts))
            (decode_members fuel depth maximum no_members ts) _
            (decode_members-LeavesBelow fuel depth no_members ts (omega arith))
            (λ (ms, after) below. closes_object-LeavesBelow (suc (length ts)) ms after below))
    decode-LeavesBelow (suc fuel) depth (open_array ∷ ts) h =
        LeavesBelow-refuse (suc (length ts)) (ltb maximum depth) too_deep _ (λ e. cc)
          (LeavesBelow-bind (suc (length ts)) (suc (length ts)) (decode_items fuel depth maximum ts)
            _ (decode_items-LeavesBelow fuel depth ts (omega arith))
            (λ (xs, after) below. closes_array-LeavesBelow (suc (length ts)) xs after below))
    decode-LeavesBelow (suc fuel) depth (close_object ∷ ts) h =
        LeavesBelow-refuse (suc (length ts)) (ltb maximum depth) too_deep (err unexpected) (λ e. cc)
          (λ e. cc)
    decode-LeavesBelow (suc fuel) depth (close_array ∷ ts) h =
        LeavesBelow-refuse (suc (length ts)) (ltb maximum depth) too_deep (err unexpected) (λ e. cc)
          (λ e. cc)

    decode_members-LeavesBelow :
        (fuel depth : ℕ) (read : Members) (ts : List Token)
        → 2 * length ts + 1 < fuel
        → LeavesBelow (suc (length ts)) (decode_members fuel depth maximum read ts)
    decode_members-LeavesBelow zero depth read ts h = absurd (omega arith)
    decode_members-LeavesBelow (suc fuel) depth read ts h = elim (Bool-cases (more ts)) [
      | inr e ↦
          subst (LeavesBelow (suc (length ts))) (sym (stop_members maximum fuel depth read ts e))
            (omega arith)
      | inl e ↦
          subst (LeavesBelow (suc (length ts))) (sym (more_members maximum fuel depth read ts e)) (
            LeavesBelow-bind (length ts) (suc (length ts)) (read_key ts) _ (read_key-LeavesBelow ts)
              (λ (key, rest) below.
                LeavesBelow-bind (length rest) (suc (length ts))
                  (refuse (has_key key read) duplicate_key
                    >> decode_json_value fuel (depth + 1) maximum rest)
                  _
                  (LeavesBelow-refuse (length rest) (has_key key read) duplicate_key
                    (decode_json_value fuel (depth + 1) maximum rest) (λ e. cc)
                    (decode-LeavesBelow fuel (depth + 1) rest (omega arith)))
                  (λ (child, after) less.
                    LeavesBelow-mono (suc (length after)) (suc (length ts))
                      (decode_members fuel depth maximum (add_member key child read) after)
                      (omega arith)
                      (decode_members-LeavesBelow fuel depth (add_member key child read) after
                        (omega arith)))))
    ]

    decode_items-LeavesBelow :
        (fuel depth : ℕ) (ts : List Token)
        → 2 * length ts + 1 < fuel
        → LeavesBelow (suc (length ts)) (decode_items fuel depth maximum ts)
    decode_items-LeavesBelow zero depth ts h = absurd (omega arith)
    decode_items-LeavesBelow (suc fuel) depth ts h = elim (Bool-cases (more ts)) [
      | inr e ↦
          subst (LeavesBelow (suc (length ts))) (sym (stop_items maximum fuel depth ts e))
            (omega arith)
      | inl e ↦ subst (LeavesBelow (suc (length ts))) (sym (more_items maximum fuel depth ts e)) (
          LeavesBelow-bind (length ts) (suc (length ts))
            (decode_json_value fuel (depth + 1) maximum ts) _
            (decode-LeavesBelow fuel (depth + 1) ts (omega arith))
            (λ (child, after) less.
              LeavesBelow-bind (suc (length after)) (suc (length ts))
                (decode_items fuel depth maximum after) _
                (decode_items-LeavesBelow fuel depth after (omega arith))
                (λ (xs, last) least. omega arith)))
    ]

-- canonicalJSON decides on every list of tokens: the fuel of the model does not run out.
pub canonical_value_decides :
    (maximum : ℕ) (ts : List Token) → canonical_value maximum ts ≢ err out_of_fuel
unfolding canonical_value
canonical_value_decides maximum ts =
    decided (length ts) (decode_json_value (2 * length ts + 1) 0 maximum ts)
      (decode-LeavesBelow maximum (2 * length ts + 1) 0 ts (omega arith))
