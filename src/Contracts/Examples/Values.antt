-- ===== src/Contracts/Examples/Values.antt =====
-- Numbers, JSON documents and logical paths.
use jobman_control.Contracts.Json.{
  Token, open_object, close_object, open_array, close_array, Json, array, object, no_items, item,
  no_members, member, canonical_value, out_of_fuel, duplicate_key, too_deep,
}
use jobman_control.Contracts.Json.Writing.{write}
use jobman_control.Contracts.Json.Roundtrip.{canonical_value-write}
use jobman_control.Contracts.Json.Sound.{IsToken, canonical_value_again}
use jobman_control.Contracts.Json.Ends.{canonical_value_decides}
use jobman_control.Contracts.Json.Numbers.{
  Decimal, normalize_json_number, read_decimal, read_unsigned,
}
use jobman_control.Contracts.Json.Numbers.Canonical.{normalize_json_number_again}
use jobman_control.Contracts.Json.Numbers.Values.{SameNumber, normalize_json_number-SameNumber}
use jobman_control.Contracts.Paths.{validate_logical_path, is_bad_code, slash, join}
use jobman_control.Contracts.Paths.Accepted.{ProperSegments, validate_logical_path-Proper}
use jobman_control.Prelude.{
  ℕ, List, [], ◌∷◌, ◌++◌, true, false, codes, some, ok, err, any, pos, ◌≡◌, ◌≢◌, refl, ◌↔◌, arith,
  All,
}

moves_the_point : normalize_json_number (codes "-0.0120e+3") ≡ some (codes "-1.2e1")
unfolding normalize_json_number
moves_the_point = refl

drops_zeros : normalize_json_number (codes "100") ≡ some (codes "1e2")
unfolding normalize_json_number
drops_zeros = refl

zero_has_no_sign : normalize_json_number (codes "-0.00E-7") ≡ some (codes "0")
unfolding normalize_json_number
zero_has_no_sign = refl

adds_exponents : normalize_json_number (codes "0.00325e-10") ≡ some (codes "3.25e-13")
unfolding normalize_json_number
adds_exponents = refl

-- 12.50
abbrev price : Decimal
price = record { negative = false; integer = codes "12"; fraction = codes "50"; exponent = pos 0 }

reads_price : read_decimal (codes "12.50") ≡ some price
unfolding read_decimal read_unsigned
reads_price = refl

normalize_json_number_again_example :
    (canonical : List ℕ) × (normalize_json_number (codes "12.50") ≡ some canonical)
    × (normalize_json_number canonical ≡ some canonical)
normalize_json_number_again_example =
    normalize_json_number_again (codes "12.50") (price, reads_price, refl)

normalize_json_number-SameNumber_example :
    (canonical : List ℕ) × (d : Decimal) × (normalize_json_number (codes "12.50") ≡ some canonical)
    × (read_decimal canonical ≡ some d)
    × SameNumber price d
normalize_json_number-SameNumber_example =
    normalize_json_number-SameNumber (codes "12.50") price reads_price refl

-- {"b": 1.0, "a": [true, null]}
abbrev tokens : List Token
tokens =
    open_object
    ∷ Token.text "b"
    ∷ Token.number (codes "1.0")
    ∷ Token.text "a"
    ∷ open_array
    ∷ Token.boolean true
    ∷ Token.null
    ∷ close_array
    ∷ close_object
    ∷ []

abbrev value : Json
value = object (
    member "a" (array (item (Json.boolean true) (item Json.null no_items)))
      (member "b" (Json.number (codes "1")) no_members))

reads_value : canonical_value 2 tokens ≡ ok value
unfolding canonical_value normalize_json_number
reads_value = refl

refuses_depth : canonical_value 1 tokens ≡ err too_deep
unfolding canonical_value normalize_json_number
refuses_depth = refl

refuses_duplicate :
    canonical_value 2
      (open_object ∷ Token.text "a" ∷ Token.null ∷ Token.text "a" ∷ Token.null ∷ close_object ∷ [])
    ≡ err duplicate_key
unfolding canonical_value
refuses_duplicate = refl

canonical_value-write_example : canonical_value 2 (write value []) ≡ ok value
unfolding normalize_json_number
canonical_value-write_example = canonical_value-write 2 value (
  omega arith,
  ((refl, tt), (omega arith, (omega arith, (omega arith, tt))), (tt, (omega arith, refl), tt)),
)

abbrev one : Decimal
one = record { negative = false; integer = codes "1"; fraction = codes "0"; exponent = pos 0 }

reads_one : read_decimal (codes "1.0") ≡ some one
unfolding read_decimal read_unsigned
reads_one = refl

abbrev tokens-IsToken : All IsToken tokens
tokens-IsToken = (tt, (tt, ((one, reads_one, refl), (tt, (tt, (tt, (tt, (tt, (tt, tt)))))))))

canonical_value_again_example : canonical_value 2 (write value []) ≡ ok value
canonical_value_again_example = canonical_value_again 2 tokens value tokens-IsToken reads_value

canonical_value_decides_example : canonical_value 2 tokens ≢ err out_of_fuel
canonical_value_decides_example = canonical_value_decides 2 tokens

validate_logical_path-Proper_example :
    (validate_logical_path (codes "workspace:/a/b") (codes "workspace") ≡ ok tt) ↔ (
      (any is_bad_code (codes "workspace:/a/b") ≡ false)
      × ((ss : List (List ℕ)) × ProperSegments ss
          × (codes "workspace:/a/b" ≡ (codes "workspace" ++ 58 ∷ slash ∷ []) ++ join ss)))
validate_logical_path-Proper_example =
    validate_logical_path-Proper (codes "workspace:/a/b") (codes "workspace")
