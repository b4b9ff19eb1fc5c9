-- ===== src/Contracts/Json/Roundtrip.antt =====
-- contracts/jobman/v1alpha1/codec.go: canonicalJSON reads back what json.Marshal writes.
use jobman_control.Contracts.Json.{
  Token, close_object, close_array, Json, Items, Members, array, object, no_items, item, no_members,
  member, has_key, add_member, more, decode_json_value, decode_members, decode_items,
  canonical_value, ends,
}
use jobman_control.Contracts.Json.Writing.{
  write, write_items, write_members, KeysAfter, Canonical, CanonicalItems, CanonicalMembers,
}
use jobman_control.Contracts.Json.Steps.{
  array_step, object_step, item_step, member_step, null_step, boolean_step, text_step, number_step,
  stop_items, stop_members,
}
use jobman_control.Prelude.{
  ℕ, zero, suc, ◌+◌, ◌*◌, ◌≤◌, ◌<◌, String, true, false, List, [], ◌∷◌, length, ok, text_lt,
  text_lt_irrefl, arith, ◌≡◌, refl, sym, ap, ◌∙◌, eq_iff, ◌>>=◌, ◌>>◌,
}

-- The calls that a value takes.
abbrev mutual
  weight : Json → ℕ
  weight (array xs) = 1 + weight_items xs
  weight (object ms) = 1 + weight_members ms
  weight _ = 1

  weight_items : Items → ℕ
  weight_items no_items = 1
  weight_items (item x xs) = 1 + weight x + weight_items xs

  weight_members : Members → ℕ
  weight_members no_members = 1
  weight_members (member k v ms) = 1 + weight v + weight_members ms

-- Members read before, in their order, with more behind them.
abbrev join : Members → Members → Members
join no_members ns = ns
join (member k v ms) ns = member k v (join ms ns)

-- The keys of the members that were read come before a key.
abbrev KeysBefore : String → Members → Type 0
KeysBefore k no_members = Unit
KeysBefore k (member j v ms) = (text_lt j k ≡ true) × KeysBefore k ms

has_key-KeysBefore : (k : String) (ms : Members) → KeysBefore k ms → has_key k ms ≡ false
unfolding has_key
has_key-KeysBefore k no_members h = refl
has_key-KeysBefore k (member j v ms) h =
    ground (arith, has_key-KeysBefore k ms, eq_iff j k, text_lt_irrefl k)

add_member-KeysBefore :
    (k : String) (v : Json) (ms : Members)
    → KeysBefore k ms
    → add_member k v ms ≡ join ms (member k v no_members)
unfolding add_member
add_member-KeysBefore k v no_members h = refl
add_member-KeysBefore k v (member j w ms) h = ground (arith, add_member-KeysBefore k v ms)

join_assoc : (ls ms ns : Members) → join (join ls ms) ns ≡ join ls (join ms ns)
join_assoc no_members ms ns = refl
join_assoc (member k v ls) ms ns = ap (λ l. member k v l) (join_assoc ls ms ns)

join-end : (ms : Members) → join ms no_members ≡ ms
join-end no_members = refl
join-end (member k v ms) = ap (λ l. member k v l) (join-end ms)

-- All keys of the first list come before those of the second.
abbrev Ahead : Members → Members → Type 0
Ahead ms no_members = Unit
Ahead ms (member k v ns) = KeysBefore k ms × Ahead ms ns

KeysBefore-join :
    (k j : String) (v : Json) (ms : Members)
    → KeysBefore k ms
    → text_lt j k ≡ true
    → KeysBefore k (join ms (member j v no_members))
KeysBefore-join k j v no_members h e = (e, tt)
KeysBefore-join k j v (member i w ms) h e = (h.0, KeysBefore-join k j v ms h.1 e)

Ahead-join :
    (ms ns : Members) (k : String) (v : Json)
    → Ahead ms ns
    → KeysAfter k ns
    → Ahead (join ms (member k v no_members)) ns
Ahead-join ms no_members k v a h = tt
Ahead-join ms (member j w ns) k v a h =
    (KeysBefore-join j k v ms a.0 h.0, Ahead-join ms ns k v a.1 h.1)

Ahead-nil : (ns : Members) → Ahead no_members ns
Ahead-nil no_members = tt
Ahead-nil (member k v ns) = (tt, Ahead-nil ns)

more-write : (x : Json) (ts : List Token) → more (write x ts) ≡ true
more-write Json.null ts = refl
more-write (Json.boolean b) ts = refl
more-write (Json.text s) ts = refl
more-write (Json.number n) ts = refl
more-write (array xs) ts = refl
more-write (object ms) ts = refl

weight-pos : (x : Json) → 0 < weight x
weight-pos Json.null = omega arith
weight-pos (Json.boolean b) = omega arith
weight-pos (Json.text s) = omega arith
weight-pos (Json.number n) = omega arith
weight-pos (array xs) = omega arith
weight-pos (object ms) = omega arith

weight_items-pos : (xs : Items) → 0 < weight_items xs
weight_items-pos no_items = omega arith
weight_items-pos (item x xs) = omega arith

weight_members-pos : (ms : Members) → 0 < weight_members ms
weight_members-pos no_members = omega arith
weight_members-pos (member k v ms) = omega arith

module _ (maximum : ℕ) where
  mutual
    decode-write :
        (fuel depth : ℕ) (x : Json) (ts : List Token)
        → weight x ≤ fuel
        → Canonical maximum depth x
        → decode_json_value fuel depth maximum (write x ts) ≡ ok (x, ts)
    decode-write zero depth x ts w c = absurd (omega (arith, weight-pos x))
    decode-write (suc fuel) depth Json.null ts w c = null_step maximum fuel depth ts c
    decode-write (suc fuel) depth (Json.boolean b) ts w c = boolean_step maximum fuel depth b ts c
    decode-write (suc fuel) depth (Json.text s) ts w c = text_step maximum fuel depth s ts c
    decode-write (suc fuel) depth (Json.number n) ts w c =
        number_step maximum fuel depth n n ts c.0 c.1
    decode-write (suc fuel) depth (array xs) ts w c =
        array_step maximum fuel depth xs (write_items xs (close_array ∷ ts)) ts c.0
          (decode_items-write fuel depth xs (close_array ∷ ts) (omega arith) c.1 refl)
    decode-write (suc fuel) depth (object ms) ts w c =
        object_step maximum fuel depth ms (write_members ms (close_object ∷ ts)) ts c.0 (
          decode_members-write fuel depth no_members ms (close_object ∷ ts) (omega arith) c.1
            (Ahead-nil ms) refl)

    decode_items-write :
        (fuel depth : ℕ) (xs : Items) (ts : List Token)
        → weight_items xs ≤ fuel
        → CanonicalItems maximum (depth + 1) xs
        → more ts ≡ false
        → decode_items fuel depth maximum (write_items xs ts) ≡ ok (xs, ts)
    decode_items-write zero depth no_items ts w c m = absurd (omega arith)
    decode_items-write zero depth (item x xs) ts w c m = absurd (omega arith)
    decode_items-write (suc fuel) depth no_items ts w c m = stop_items maximum fuel depth ts m
    decode_items-write (suc fuel) depth (item x xs) ts w c m =
        item_step maximum fuel depth x xs (write x (write_items xs ts)) (write_items xs ts) ts
          (more-write x (write_items xs ts))
          (decode-write fuel (depth + 1) x (write_items xs ts) (omega (arith, weight_items-pos xs))
            c.0)
          (decode_items-write fuel depth xs ts (omega (arith, weight-pos x)) c.1 m)

    decode_members-write :
        (fuel depth : ℕ) (read ms : Members) (ts : List Token)
        → weight_members ms ≤ fuel
        → CanonicalMembers maximum (depth + 1) ms
        → Ahead read ms
        → more ts ≡ false
        → decode_members fuel depth maximum read (write_members ms ts) ≡ ok (join read ms, ts)
    decode_members-write zero depth read no_members ts w c a m = absurd (omega arith)
    decode_members-write zero depth read (member k v ms) ts w c a m = absurd (omega arith)
    decode_members-write (suc fuel) depth read no_members ts w c a m =
        stop_members maximum fuel depth read ts m ∙ ap (λ ms. ok (ms, ts)) (sym (join-end read))
    decode_members-write (suc fuel) depth read (member k v ms) ts w c a m =
        member_step maximum fuel depth k v read (write v (write_members ms ts))
          (write_members ms ts) (has_key-KeysBefore k read a.0)
          (decode-write fuel (depth + 1) v (write_members ms ts)
            (omega (arith, weight_members-pos ms)) c.1)
        ∙ ap (λ r. decode_members fuel depth maximum r (write_members ms ts))
            (add_member-KeysBefore k v read a.0)
        ∙ decode_members-write fuel depth (join read (member k v no_members)) ms ts
            (omega (arith, weight-pos v)) c.2 (Ahead-join read ms k v a.1 c.0) m
        ∙ ap (λ r. ok (r, ts)) (join_assoc read (member k v no_members) ms)

mutual
  weight-write :
      (x : Json) (ts : List Token) → weight x + 1 + 2 * length ts ≤ 2 * length (write x ts)
  weight-write Json.null ts = omega arith
  weight-write (Json.boolean b) ts = omega arith
  weight-write (Json.text s) ts = omega arith
  weight-write (Json.number n) ts = omega arith
  weight-write (array xs) ts = omega (arith, weight-write_items xs (close_array ∷ ts))
  weight-write (object ms) ts = omega (arith, weight-write_members ms (close_object ∷ ts))

  weight-write_items :
      (xs : Items) (ts : List Token)
      → weight_items xs + 2 * length ts ≤ 2 * length (write_items xs ts) + 1
  weight-write_items no_items ts = omega arith
  weight-write_items (item x xs) ts =
      omega (arith, weight-write x (write_items xs ts), weight-write_items xs ts)

  weight-write_members :
      (ms : Members) (ts : List Token)
      → weight_members ms + 2 * length ts ≤ 2 * length (write_members ms ts) + 1
  weight-write_members no_members ts = omega arith
  weight-write_members (member k v ms) ts =
      omega (arith, weight-write v (write_members ms ts), weight-write_members ms ts)

-- A canonical value, with its keys in order and once each, its numbers in canonical form and its
-- nesting within the bound, is read back from its tokens.
pub canonical_value-write :
    (maximum : ℕ) (x : Json) → Canonical maximum 0 x → canonical_value maximum (write x []) ≡ ok x
unfolding canonical_value
canonical_value-write maximum x c =
    ap (λ r. r >>= λ (value, rest). ends rest >> ok value)
      (decode-write maximum (2 * length (write x []) + 1) 0 x [] (omega (arith, weight-write x []))
        c)
