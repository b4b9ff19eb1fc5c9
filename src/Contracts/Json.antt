-- ===== src/Contracts/Json.antt =====
-- contracts/jobman/v1alpha1/codec.go: canonicalJSON on the tokens of json.Decoder. A map is kept as its
-- members in the order of their keys, in which json.Marshal writes them.
pub mod Numbers
pub mod Writing
pub mod Steps
pub mod Roundtrip
pub mod Sound
pub mod Ends
use jobman_control.Contracts.Json.Numbers.{normalize_json_number}
use jobman_control.Prelude.{
  ℕ, zero, suc, ◌+◌, ◌*◌, String, Bool, true, false, ◌||◌, List, [], ◌∷◌, if◌then◌else◌, str_eq,
  ltb, length, Result, ok, err, ◌>>=◌, ◌>>◌, refuse, or_fail, text_lt,
}

-- What decoder.Token returns, until its end or an error of its own.
pub data Token : Type 0 where
  open_object close_object open_array close_array null : Token
  boolean : Bool → Token
  text : String → Token
  number : List ℕ → Token

mutual
  pub data Json : Type 0 where
    null : Json
    boolean : Bool → Json
    text : String → Json
    number : List ℕ → Json
    array : Items → Json
    object : Members → Json

  pub data Items : Type 0 where
    no_items : Items
    item : Json → Items → Items

  pub data Members : Type 0 where
    no_members : Members
    member : String → Json → Members → Members

-- `out_of_fuel` is of the model alone.
pub data Malformed : Type 0 where
  too_deep ended bad_number key_is_no_text duplicate_key unterminated unexpected trailing :
      Malformed
  out_of_fuel : Malformed

unfoldable pub has_key : String → Members → Bool
has_key key no_members = false
has_key key (member k v ms) = str_eq k key || has_key key ms

-- `value[key] = child` of a key that is not there.
unfoldable pub add_member : String → Json → Members → Members
add_member key child no_members = member key child no_members
add_member key child (member k v ms) =
    let rest = add_member key child ms in
    if text_lt k key then member k v rest else member key child (member k v ms)

unfoldable pub closes_object : List Token → Result Malformed (List Token)
closes_object (Token.close_object ∷ ts) = ok ts
closes_object _ = err unterminated

unfoldable pub closes_array : List Token → Result Malformed (List Token)
closes_array (Token.close_array ∷ ts) = ok ts
closes_array _ = err unterminated

-- decoder.More
abbrev pub more : List Token → Bool
more [] = false
more (Token.close_object ∷ ts) = false
more (Token.close_array ∷ ts) = false
more (_ ∷ ts) = true

-- The key that the loop over an object reads.
unfoldable pub read_key : List Token → Result Malformed (String × List Token)
read_key (Token.text key ∷ ts) = ok (key, ts)
read_key [] = err ended
read_key _ = err key_is_no_text

-- decodeJSONValue on fuel, its two loops as functions of the values read so far.
unfoldable mutual
  unfolding has_key add_member closes_object closes_array read_key

  pub decode_json_value : ℕ → ℕ → ℕ → List Token → Result Malformed (Json × List Token)
  decode_json_value zero depth maximum_depth ts = err out_of_fuel
  decode_json_value (suc fuel) depth maximum_depth ts =
      refuse (ltb maximum_depth depth) too_deep >> elim ts [
        | [] ↦ err ended
        | Token.null ∷ rest ↦ ok (Json.null, rest)
        | Token.boolean b ∷ rest ↦ ok (Json.boolean b, rest)
        | Token.text s ∷ rest ↦ ok (Json.text s, rest)
        | Token.number n ∷ rest ↦ or_fail (normalize_json_number n) bad_number >>= λ canonical.
            ok (Json.number canonical, rest)
        | Token.open_object ∷ rest ↦
            decode_members fuel depth maximum_depth no_members rest >>= λ (ms, after).
            closes_object after >>= λ last. ok (object ms, last)
        | Token.open_array ∷ rest ↦ decode_items fuel depth maximum_depth rest >>= λ (xs, after).
            closes_array after >>= λ last. ok (array xs, last)
        | Token.close_object ∷ rest ↦ err unexpected
        | Token.close_array ∷ rest ↦ err unexpected
      ]

  pub decode_members : ℕ → ℕ → ℕ → Members → List Token → Result Malformed (Members × List Token)
  decode_members zero depth maximum_depth ms ts = err out_of_fuel
  decode_members (suc fuel) depth maximum_depth ms ts = elim (more ts) [
    | false ↦ ok (ms, ts)
    | true ↦ read_key ts >>= λ (key, rest).
        refuse (has_key key ms) duplicate_key
        >> decode_json_value fuel (depth + 1) maximum_depth rest
        >>= λ (child, after).
            decode_members fuel depth maximum_depth (add_member key child ms) after
  ]

  pub decode_items : ℕ → ℕ → ℕ → List Token → Result Malformed (Items × List Token)
  decode_items zero depth maximum_depth ts = err out_of_fuel
  decode_items (suc fuel) depth maximum_depth ts = elim (more ts) [
    | false ↦ ok (no_items, ts)
    | true ↦ decode_json_value fuel (depth + 1) maximum_depth ts >>= λ (child, after).
        decode_items fuel depth maximum_depth after >>= λ (xs, last). ok (item child xs, last)
  ]

ends : List Token → Result Malformed (Unit {0})
ends [] = ok tt
ends (_ ∷ _) = err trailing

-- canonicalJSON up to json.Marshal; a value takes at most two calls for each of its tokens.
unfoldable pub canonical_value : ℕ → List Token → Result Malformed Json
unfolding decode_json_value ends
canonical_value maximum_depth ts =
    decode_json_value (2 * length ts + 1) 0 maximum_depth ts >>= λ (value, rest).
    ends rest >> ok value
