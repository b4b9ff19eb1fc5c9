-- ===== src/Contracts/Json/Sound.antt =====
-- contracts/jobman/v1alpha1/codec.go: what canonicalJSON accepts.
use jobman_control.Contracts.Json.Writing.{
  write, KeysAfter, Canonical, CanonicalItems, CanonicalMembers,
}
use jobman_control.Contracts.Json.Steps.{stop_items, stop_members, more_items, more_members}
use jobman_control.Contracts.Json.Roundtrip.{canonical_value-write}
use jobman_control.Contracts.Json.{
  Token, open_object, close_object, open_array, close_array, Json, Items, Members, array, object,
  no_items, item, no_members, member, has_key, add_member, more, read_key, closes_array,
  closes_object, decode_json_value, decode_members, decode_items, canonical_value, ends, too_deep,
  duplicate_key, bad_number,
}
use jobman_control.Contracts.Json.Numbers.{normalize_json_number}
use jobman_control.Contracts.Json.Numbers.Canonical.{IsNumber, normalize_json_number_again}
use jobman_control.Prelude.{
  ℕ, zero, suc, ◌+◌, ◌*◌, ◌≤◌, String, true, false, List, [], ◌∷◌, ltb, length, All, ok, some,
  text_lt, text_lt_trans, text_lt-total, arith, ◌≡◌, sym, ◌∙◌, subst, Bool-cases, inl, inr, eq_iff,
  refuse, or_fail, ◌>>◌, >>=-eq-ok, refuse-eq-ok, ok-injective,
}

-- The numbers of a decoder's tokens are numbers.
abbrev pub IsToken : Token → Type 0
IsToken (Token.number n) = IsNumber n
IsToken _ = Unit

KeysAfter-trans :
    (j k : String) (ms : Members) → text_lt j k ≡ true → KeysAfter k ms → KeysAfter j ms
KeysAfter-trans j k no_members h a = tt
KeysAfter-trans j k (member i v ms) h a = (text_lt_trans j k i h a.0, KeysAfter-trans j k ms h a.1)

KeysAfter-add_member :
    (j k : String) (v : Json) (ms : Members)
    → text_lt j k ≡ true
    → KeysAfter j ms
    → KeysAfter j (add_member k v ms)
unfolding add_member
KeysAfter-add_member j k v no_members h a = (h, tt)
KeysAfter-add_member j k v (member i w ms) h a = ground (arith, KeysAfter-add_member j k v ms)

key_before :
    (k i : String) (w : Json) (ms : Members)
    → has_key k (member i w ms) ≡ false
    → text_lt i k ≡ false
    → text_lt k i ≡ true
unfolding has_key
key_before k i w ms n e = elim (Bool-cases (text_lt k i)) [
  | inl h ↦ h
  | inr h ↦ ground (arith, text_lt-total i k e h, eq_iff i k)
]

add_member-Canonical :
    (maximum depth : ℕ) (k : String) (v : Json) (ms : Members)
    → has_key k ms ≡ false
    → Canonical maximum depth v
    → CanonicalMembers maximum depth ms
    → CanonicalMembers maximum depth (add_member k v ms)
unfolding add_member has_key
add_member-Canonical maximum depth k v no_members n c a = (tt, c, tt)
add_member-Canonical maximum depth k v (member i w ms) n c a = elim (Bool-cases (text_lt i k)) [
  | inl e ↦ rw e (
    KeysAfter-add_member i k v ms e a.0,
    a.1,
    add_member-Canonical maximum depth k v ms (ground arith) c a.2,
  )
  | inr e ↦
      rw e ((key_before k i w ms n e, KeysAfter-trans k i ms (key_before k i w ms n e) a.0), c, a)
]

abbrev Good : ℕ → ℕ → Json × List Token → Type 0
Good maximum depth p = Canonical maximum depth p.0 × All IsToken p.1

abbrev GoodItems : ℕ → ℕ → Items × List Token → Type 0
GoodItems maximum depth p = CanonicalItems maximum depth p.0 × All IsToken p.1

abbrev GoodMembers : ℕ → ℕ → Members × List Token → Type 0
GoodMembers maximum depth p = CanonicalMembers maximum depth p.0 × All IsToken p.1

closes_array-tokens :
    (ts last : List Token) → closes_array ts ≡ ok last → All IsToken ts → All IsToken last
unfolding closes_array
closes_array-tokens (close_array ∷ ts) last h a = subst (All IsToken) (ok-injective ts last h) a.1
closes_array-tokens [] last h a = cc
closes_array-tokens (t ∷ ts) last h a = cc

closes_object-tokens :
    (ts last : List Token) → closes_object ts ≡ ok last → All IsToken ts → All IsToken last
unfolding closes_object
closes_object-tokens (close_object ∷ ts) last h a = subst (All IsToken) (ok-injective ts last h) a.1
closes_object-tokens [] last h a = cc
closes_object-tokens (t ∷ ts) last h a = cc

read_key-tokens :
    (ts : List Token) (p : String × List Token)
    → read_key ts ≡ ok p
    → All IsToken ts
    → All IsToken p.1
unfolding read_key
read_key-tokens (Token.text k ∷ ts) p h a =
    subst (λ q. All IsToken q.1) (ok-injective (k, ts) p h) a.1
read_key-tokens [] p h a = cc
read_key-tokens (t ∷ ts) p h a = cc

within :
    (maximum depth : ℕ) {u : Unit {0}}
    → refuse (ltb maximum depth) too_deep ≡ ok u
    → depth ≤ maximum
within maximum depth h = ground (arith, refuse-eq-ok (ltb maximum depth) too_deep h)

number_case :
    (n c : List ℕ)
    → IsNumber n
    → or_fail (normalize_json_number n) bad_number ≡ ok c
    → normalize_json_number c ≡ some c
number_case n c i h =
    let (canonical, reads, again) = normalize_json_number_again n i in
    let same : canonical ≡ c = ground (arith, reads, h) in
    subst (λ z. normalize_json_number z ≡ some z) same again

module _ (maximum : ℕ) where
  mutual
    unfolding decode_json_value

    decode-Canonical :
        (fuel depth : ℕ) (ts : List Token) (p : Json × List Token)
        → All IsToken ts
        → decode_json_value fuel depth maximum ts ≡ ok p
        → Good maximum depth p
    decode-Canonical zero depth ts p n h = cc
    decode-Canonical (suc fuel) depth [] p n h =
        let (_, deep, rest) = >>=-eq-ok (refuse (ltb maximum depth) too_deep) _ h in cc (rest)
    decode-Canonical (suc fuel) depth (Token.null ∷ ts) p n h =
        let (_, deep, rest) = >>=-eq-ok (refuse (ltb maximum depth) too_deep) _ h in
        subst (Good maximum depth) (ok-injective (Json.null, ts) p rest)
          (within maximum depth deep, n.1)
    decode-Canonical (suc fuel) depth (Token.boolean b ∷ ts) p n h =
        let (_, deep, rest) = >>=-eq-ok (refuse (ltb maximum depth) too_deep) _ h in
        subst (Good maximum depth) (ok-injective (Json.boolean b, ts) p rest)
          (within maximum depth deep, n.1)
    decode-Canonical (suc fuel) depth (Token.text s ∷ ts) p n h =
        let (_, deep, rest) = >>=-eq-ok (refuse (ltb maximum depth) too_deep) _ h in
        subst (Good maximum depth) (ok-injective (Json.text s, ts) p rest)
          (within maximum depth deep, n.1)
    decode-Canonical (suc fuel) depth (Token.number m ∷ ts) p n h =
        let (_, deep, rest) = >>=-eq-ok (refuse (ltb maximum depth) too_deep) _ h in
        let (c, reads, done) = >>=-eq-ok (or_fail (normalize_json_number m) bad_number) _ rest in
        subst (Good maximum depth) (ok-injective (Json.number c, ts) p done)
          ((within maximum depth deep, number_case m c n.0 reads), n.1)
    decode-Canonical (suc fuel) depth (open_object ∷ ts) p n h =
        let (_, deep, rest) = >>=-eq-ok (refuse (ltb maximum depth) too_deep) _ h in
        let ((ms, after), reads, closing) =
          >>=-eq-ok (decode_members fuel depth maximum no_members ts) _ rest in
        let (last, closes, done) = >>=-eq-ok (closes_object after) _ closing in
        let good = decode_members-Canonical fuel depth no_members ts (ms, after) n.1 tt reads in
        subst (Good maximum depth) (ok-injective (object ms, last) p done)
          ((within maximum depth deep, good.0), closes_object-tokens after last closes good.1)
    decode-Canonical (suc fuel) depth (open_array ∷ ts) p n h =
        let (_, deep, rest) = >>=-eq-ok (refuse (ltb maximum depth) too_deep) _ h in
        let ((xs, after), reads, closing) = >>=-eq-ok (decode_items fuel depth maximum ts) _ rest in
        let (last, closes, done) = >>=-eq-ok (closes_array after) _ closing in
        let good = decode_items-Canonical fuel depth ts (xs, after) n.1 reads in
        subst (Good maximum depth) (ok-injective (array xs, last) p done)
          ((within maximum depth deep, good.0), closes_array-tokens after last closes good.1)
    decode-Canonical (suc fuel) depth (close_object ∷ ts) p n h =
        let (_, deep, rest) = >>=-eq-ok (refuse (ltb maximum depth) too_deep) _ h in cc (rest)
    decode-Canonical (suc fuel) depth (close_array ∷ ts) p n h =
        let (_, deep, rest) = >>=-eq-ok (refuse (ltb maximum depth) too_deep) _ h in cc (rest)

    decode_members-Canonical :
        (fuel depth : ℕ) (read : Members) (ts : List Token) (p : Members × List Token)
        → All IsToken ts
        → CanonicalMembers maximum (depth + 1) read
        → decode_members fuel depth maximum read ts ≡ ok p
        → GoodMembers maximum (depth + 1) p
    decode_members-Canonical zero depth read ts p n c h = cc
    decode_members-Canonical (suc fuel) depth read ts p n c h = elim (Bool-cases (more ts)) [
      | inr e ↦
          subst (GoodMembers maximum (depth + 1))
            (ok-injective (read, ts) p (sym (stop_members maximum fuel depth read ts e) ∙ h)) (c, n)
      | inl e ↦
          let ((key, rest), reads, keyed) =
            >>=-eq-ok (read_key ts) _ (sym (more_members maximum fuel depth read ts e) ∙ h) in
          let ((child, after), valued, others) =
            >>=-eq-ok
              (refuse (has_key key read) duplicate_key
                >> decode_json_value fuel (depth + 1) maximum rest)
              _ keyed in
          let (_, fresh, decodes) = >>=-eq-ok (refuse (has_key key read) duplicate_key) _ valued in
          let good =
            decode-Canonical fuel (depth + 1) rest (child, after)
              (read_key-tokens ts (key, rest) reads n) decodes in
          decode_members-Canonical fuel depth (add_member key child read) after p good.1
            (add_member-Canonical maximum (depth + 1) key child read
              (refuse-eq-ok (has_key key read) duplicate_key fresh) good.0 c)
            others
    ]

    decode_items-Canonical :
        (fuel depth : ℕ) (ts : List Token) (p : Items × List Token)
        → All IsToken ts
        → decode_items fuel depth maximum ts ≡ ok p
        → GoodItems maximum (depth + 1) p
    decode_items-Canonical zero depth ts p n h = cc
    decode_items-Canonical (suc fuel) depth ts p n h = elim (Bool-cases (more ts)) [
      | inr e ↦
          subst (GoodItems maximum (depth + 1))
            (ok-injective (no_items, ts) p (sym (stop_items maximum fuel depth ts e) ∙ h)) (tt, n)
      | inl e ↦
          let ((child, after), decodes, others) =
            >>=-eq-ok (decode_json_value fuel (depth + 1) maximum ts) _
              (sym (more_items maximum fuel depth ts e) ∙ h) in
          let ((xs, last), rest, done) =
            >>=-eq-ok (decode_items fuel depth maximum after) _ others in
          let good = decode-Canonical fuel (depth + 1) ts (child, after) n decodes in
          let good_rest = decode_items-Canonical fuel depth after (xs, last) good.1 rest in
          subst (GoodItems maximum (depth + 1)) (ok-injective (item child xs, last) p done)
            ((good.0, good_rest.0), good_rest.1)
    ]

  -- What is accepted is canonical, for tokens whose numbers are numbers: the nesting is within the
  -- bound, no object has a key twice, and every number is in its canonical form.
  pub canonical_value-Canonical :
      (ts : List Token) (x : Json)
      → All IsToken ts
      → canonical_value maximum ts ≡ ok x
      → Canonical maximum 0 x
  unfolding canonical_value
  canonical_value-Canonical ts x n h =
      let ((value, rest), decodes, ended_well) =
        >>=-eq-ok (decode_json_value (2 * length ts + 1) 0 maximum ts) _ h in
      let (_, _, done) = >>=-eq-ok (ends rest) _ ended_well in
      subst (Canonical maximum 0) (ok-injective value x done)
        (decode-Canonical (2 * length ts + 1) 0 ts (value, rest) n decodes).0

  -- A document in canonical form, once accepted, is its own canonical form.
  pub canonical_value_again :
      (ts : List Token) (x : Json)
      → All IsToken ts
      → canonical_value maximum ts ≡ ok x
      → canonical_value maximum (write x []) ≡ ok x
  canonical_value_again ts x n h =
      canonical_value-write maximum x (canonical_value-Canonical ts x n h)
