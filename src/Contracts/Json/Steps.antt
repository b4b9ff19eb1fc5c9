-- ===== src/Contracts/Json/Steps.antt =====
-- contracts/jobman/v1alpha1/codec.go: one call of decodeJSONValue, and one round of its loops.
use jobman_control.Contracts.Json.{
  Token, open_object, close_object, open_array, close_array, Json, Items, Members, array, object,
  no_items, item, no_members, has_key, add_member, more, read_key, decode_json_value,
  decode_members, decode_items, duplicate_key,
}
use jobman_control.Contracts.Json.Numbers.{normalize_json_number}
use jobman_control.Prelude.{
  ℕ, suc, ◌+◌, ◌≤◌, String, Bool, true, false, List, ◌∷◌, ltb, ok, some, arith, ◌≡◌, refuse, ◌>>=◌,
  ◌>>◌,
}

not_too_deep : (maximum depth : ℕ) → depth ≤ maximum → ltb maximum depth ≡ false
not_too_deep maximum depth h = ground arith

module _ (maximum fuel depth : ℕ) where
  pub array_step :
      (xs : Items) (ts rest : List Token)
      → depth ≤ maximum
      → decode_items fuel depth maximum ts ≡ ok (xs, close_array ∷ rest)
      → decode_json_value (suc fuel) depth maximum (open_array ∷ ts) ≡ ok (array xs, rest)
  unfolding decode_json_value
  array_step xs ts rest h e = rw (not_too_deep maximum depth h, e)

  pub object_step :
      (ms : Members) (ts rest : List Token)
      → depth ≤ maximum
      → decode_members fuel depth maximum no_members ts ≡ ok (ms, close_object ∷ rest)
      → decode_json_value (suc fuel) depth maximum (open_object ∷ ts) ≡ ok (object ms, rest)
  unfolding decode_json_value
  object_step ms ts rest h e = rw (not_too_deep maximum depth h, e)

  pub item_step :
      (x : Json) (xs : Items) (ts after last : List Token)
      → more ts ≡ true
      → decode_json_value fuel (depth + 1) maximum ts ≡ ok (x, after)
      → decode_items fuel depth maximum after ≡ ok (xs, last)
      → decode_items (suc fuel) depth maximum ts ≡ ok (item x xs, last)
  unfolding decode_items
  item_step x xs ts after last m e f = rw (m, decode_items, e, f)

  pub member_step :
      (k : String) (v : Json) (read : Members) (ts after : List Token)
      → has_key k read ≡ false
      → decode_json_value fuel (depth + 1) maximum ts ≡ ok (v, after)
      → decode_members (suc fuel) depth maximum read (Token.text k ∷ ts)
        ≡ decode_members fuel depth maximum (add_member k v read) after
  unfolding decode_members read_key
  member_step k v read ts after n e = rw (n, e)

  pub more_items :
      (ts : List Token)
      → more ts ≡ true
      → decode_items (suc fuel) depth maximum ts ≡ (
          decode_json_value fuel (depth + 1) maximum ts >>= λ (child, after).
          decode_items fuel depth maximum after >>= λ (xs, last). ok (item child xs, last))
  unfolding decode_items
  more_items ts m = rw (m, decode_items)

  pub more_members :
      (read : Members) (ts : List Token)
      → more ts ≡ true
      → decode_members (suc fuel) depth maximum read ts ≡ (
          read_key ts >>= λ (key, rest).
          refuse (has_key key read) duplicate_key
          >> decode_json_value fuel (depth + 1) maximum rest
          >>= λ (child, after). decode_members fuel depth maximum (add_member key child read) after)
  unfolding decode_members
  more_members read ts m = rw (m, decode_members)

  pub stop_items :
      (ts : List Token)
      → more ts ≡ false
      → decode_items (suc fuel) depth maximum ts ≡ ok (no_items, ts)
  unfolding decode_items
  stop_items ts m = rw (m, decode_items)

  pub stop_members :
      (read : Members) (ts : List Token)
      → more ts ≡ false
      → decode_members (suc fuel) depth maximum read ts ≡ ok (read, ts)
  unfolding decode_members
  stop_members read ts m = rw (m, decode_members)

  pub null_step :
      (rest : List Token)
      → depth ≤ maximum
      → decode_json_value (suc fuel) depth maximum (Token.null ∷ rest) ≡ ok (Json.null, rest)
  unfolding decode_json_value
  null_step rest h = rw (not_too_deep maximum depth h)

  pub boolean_step :
      (b : Bool) (rest : List Token)
      → depth ≤ maximum
      → decode_json_value (suc fuel) depth maximum (Token.boolean b ∷ rest)
        ≡ ok (Json.boolean b, rest)
  unfolding decode_json_value
  boolean_step b rest h = rw (not_too_deep maximum depth h)

  pub text_step :
      (s : String) (rest : List Token)
      → depth ≤ maximum
      → decode_json_value (suc fuel) depth maximum (Token.text s ∷ rest) ≡ ok (Json.text s, rest)
  unfolding decode_json_value
  text_step s rest h = rw (not_too_deep maximum depth h)

  pub number_step :
      (n c : List ℕ) (rest : List Token)
      → depth ≤ maximum
      → normalize_json_number n ≡ some c
      → decode_json_value (suc fuel) depth maximum (Token.number n ∷ rest)
        ≡ ok (Json.number c, rest)
  unfolding decode_json_value
  number_step n c rest h e = rw (not_too_deep maximum depth h, e)
