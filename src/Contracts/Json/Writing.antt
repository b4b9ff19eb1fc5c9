-- ===== src/Contracts/Json/Writing.antt =====
-- contracts/jobman/v1alpha1/codec.go: the tokens of what json.Marshal writes, and the values in the
-- form that canonicalJSON gives.
use jobman_control.Contracts.Json.{
  Token, open_object, close_object, open_array, close_array, Json, Items, Members, array, object,
  no_items, item, no_members, member,
}
use jobman_control.Contracts.Json.Numbers.{normalize_json_number}
use jobman_control.Prelude.{ℕ, ◌+◌, ◌≤◌, String, true, List, ◌∷◌, some, text_lt, ◌≡◌}

-- The tokens of a value, before others.
abbrev mutual
  pub write : Json → List Token → List Token
  write Json.null ts = Token.null ∷ ts
  write (Json.boolean b) ts = Token.boolean b ∷ ts
  write (Json.text s) ts = Token.text s ∷ ts
  write (Json.number n) ts = Token.number n ∷ ts
  write (array xs) ts = open_array ∷ write_items xs (close_array ∷ ts)
  write (object ms) ts = open_object ∷ write_members ms (close_object ∷ ts)

  pub write_items : Items → List Token → List Token
  write_items no_items ts = ts
  write_items (item x xs) ts = write x (write_items xs ts)

  pub write_members : Members → List Token → List Token
  write_members no_members ts = ts
  write_members (member k v ms) ts = Token.text k ∷ write v (write_members ms ts)

-- Every key comes after a key.
abbrev pub KeysAfter : String → Members → Type 0
KeysAfter k no_members = Unit
KeysAfter k (member j v ms) = (text_lt k j ≡ true) × KeysAfter k ms

-- Values nested within the bound, with the keys of every object in order, none of them twice, and
-- numbers in their canonical form.
abbrev mutual
  pub Canonical : ℕ → ℕ → Json → Type 0
  Canonical maximum depth Json.null = depth ≤ maximum
  Canonical maximum depth (Json.boolean b) = depth ≤ maximum
  Canonical maximum depth (Json.text s) = depth ≤ maximum
  Canonical maximum depth (Json.number n) = (depth ≤ maximum) × (normalize_json_number n ≡ some n)
  Canonical maximum depth (array xs) = (depth ≤ maximum) × CanonicalItems maximum (depth + 1) xs
  Canonical maximum depth (object ms) = (depth ≤ maximum) × CanonicalMembers maximum (depth + 1) ms

  pub CanonicalItems : ℕ → ℕ → Items → Type 0
  CanonicalItems maximum depth no_items = Unit
  CanonicalItems maximum depth (item x xs) =
      Canonical maximum depth x × CanonicalItems maximum depth xs

  pub CanonicalMembers : ℕ → ℕ → Members → Type 0
  CanonicalMembers maximum depth no_members = Unit
  CanonicalMembers maximum depth (member k v ms) =
      KeysAfter k ms × Canonical maximum depth v × CanonicalMembers maximum depth ms
