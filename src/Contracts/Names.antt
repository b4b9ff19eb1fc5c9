-- ===== src/Contracts/Names.antt =====
-- contracts/jobman/v1alpha1/validate.go: the patterns of names, identifiers, digests and quantities,
-- and the checks of names and of maps of texts. A map is a list of its entries, in any order.
use Prim.Native.Char.{code}
use jobman_control.Prelude.{
  ℕ, ◌+◌, String, Bool, true, false, ◌&&◌, ◌||◌, not, Option, none, some, List, [], ◌∷◌, ◌++◌,
  if◌then◌else◌, str_eq, ◌==◌, ltb, leb, length, any, all, Result, ok, ◌>>◌, refuse, codes,
}

-- An error by its text, without what is printed into it.
abbrev pub Reason : Type 0
Reason = String

abbrev pub is_digit : ℕ → Bool
is_digit c = leb 48 c && leb c 57

abbrev pub is_lower : ℕ → Bool
is_lower c = leb 97 c && leb c 122

abbrev pub is_upper : ℕ → Bool
is_upper c = leb 65 c && leb c 90

abbrev pub is_alphanumeric : ℕ → Bool
is_alphanumeric c = is_lower c || is_digit c

-- `[a-z0-9._-]`
abbrev pub is_name_code : ℕ → Bool
is_name_code c = is_alphanumeric c || c == 46 || c == 95 || c == 45

-- The rest of a name, which ends in a letter or a digit.
unfoldable pub ends_name : List ℕ → Bool
ends_name [] = true
ends_name (c ∷ []) = is_alphanumeric c
ends_name (c ∷ d ∷ ds) = is_name_code c && ends_name (d ∷ ds)

-- namePattern
unfoldable pub matches_name : List ℕ → Bool
unfolding ends_name
matches_name [] = false
matches_name (c ∷ cs) = is_alphanumeric c && leb (length cs) 127 && ends_name cs

-- environmentPattern
unfoldable pub matches_environment : List ℕ → Bool
matches_environment [] = false
matches_environment (c ∷ cs) =
    (is_upper c || is_lower c || c == 95)
    && all (λ d. is_upper d || is_lower d || d == 95 || is_digit d) cs

abbrev pub is_unit : String → Bool
is_unit s = any (str_eq s) ("B" ∷ "KiB" ∷ "MiB" ∷ "GiB" ∷ "TiB" ∷ "KB" ∷ "MB" ∷ "GB" ∷ "TB" ∷ [])

-- Digits and a unit.
unfoldable pub quantity_tail : String → Bool
quantity_tail String.[] = false
quantity_tail (String.◌∷◌ c s) = is_unit (String.◌∷◌ c s) || is_digit (code c) && quantity_tail s

-- quantityPattern
unfoldable pub matches_quantity : String → Bool
unfolding quantity_tail
matches_quantity String.[] = false
matches_quantity (String.◌∷◌ c s) = leb 49 (code c) && leb (code c) 57 && quantity_tail s

abbrev pub is_hex : ℕ → Bool
is_hex c = is_digit c || leb 97 c && leb c 102

-- What is left behind a prefix.
unfoldable pub strip_prefix : List ℕ → List ℕ → Option (List ℕ)
strip_prefix [] cs = some cs
strip_prefix (p ∷ ps) [] = none
strip_prefix (p ∷ ps) (c ∷ cs) = let rest = strip_prefix ps cs in if p == c then rest else none

-- digestPattern
unfoldable pub matches_digest : List ℕ → Bool
unfolding strip_prefix
matches_digest cs = elim (strip_prefix (codes "sha256:") cs) [
  | none ↦ false
  | some hex ↦ length hex == 64 && all is_hex hex
]

-- A text of the length of a list of classes, each code in its class.
unfoldable pub matches_classes : List (ℕ → Bool) → List ℕ → Bool
matches_classes [] [] = true
matches_classes [] (c ∷ cs) = false
matches_classes (p ∷ ps) [] = false
matches_classes (p ∷ ps) (c ∷ cs) = p c && matches_classes ps cs

abbrev hex_4 : List (ℕ → Bool)
hex_4 = is_hex ∷ is_hex ∷ is_hex ∷ is_hex ∷ []

abbrev is_dash : ℕ → Bool
is_dash c = c == 45

-- idPattern
abbrev pub id_classes : List (ℕ → Bool)
id_classes =
    hex_4
    ++ (hex_4
        ++ (is_dash
            ∷ (hex_4
                ++ (is_dash
                    ∷ (λ c. leb 49 c && leb c 53)
                    ∷ is_hex
                    ∷ is_hex
                    ∷ is_hex
                    ∷ is_dash
                    ∷ (λ c. c == 56 || c == 57 || c == 97 || c == 98)
                    ∷ is_hex
                    ∷ is_hex
                    ∷ is_hex
                    ∷ is_dash
                    ∷ (hex_4 ++ (hex_4 ++ hex_4))))))

unfoldable pub matches_id : List ℕ → Bool
unfolding matches_classes
matches_id cs = matches_classes id_classes cs

-- The bytes of a code point in UTF-8.
abbrev pub code_bytes : ℕ → ℕ
code_bytes c = if ltb c 128 then 1 else if ltb c 2048 then 2 else if ltb c 65536 then 3 else 4

-- len of a text
unfoldable pub text_bytes : String → ℕ
text_bytes String.[] = 0
text_bytes (String.◌∷◌ c s) = code_bytes (code c) + text_bytes s

unfoldable pub validate_name : String → Result Reason (Unit {0})
unfolding matches_name text_bytes
validate_name value = do
  refuse (str_eq value "") "is required"
  refuse (ltb 128 (text_bytes value) || not (matches_name (codes value))) "is invalid"

-- strings.ContainsRune(value, 0)
abbrev pub contains_nul : String → Bool
contains_nul value = any (λ c. c == 0) (codes value)

unfoldable pub validate_entries : ℕ → List (String × String) → Result Reason (Unit {0})
unfolding validate_name text_bytes
validate_entries maximum_value_bytes [] = ok tt
validate_entries maximum_value_bytes ((key, value) ∷ entries) =
    validate_name key
    >> refuse (ltb maximum_value_bytes (text_bytes value) || contains_nul value) "value is invalid"
    >> validate_entries maximum_value_bytes entries

unfoldable pub validate_string_map : List (String × String) → ℕ → Result Reason (Unit {0})
unfolding validate_entries
validate_string_map values maximum_value_bytes =
    refuse (ltb 1024 (length values)) "has too many entries"
    >> validate_entries maximum_value_bytes values
