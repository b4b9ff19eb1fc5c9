-- ===== src/Directory/Examples.antt =====
-- An LDAP message of the directory, read and validated.
use jobman_control.Directory.Bounds.{
  validate_directory_ber-Accepted, Elements-validate_directory_ber, validate_directory_ber_ends,
}
use jobman_control.Directory.Frames.{read_directory_frame-Accepted}
use jobman_control.Directory.Elements.{Accepted, Elements, primitive, no_elements}
use jobman_control.Directory.{
  validate_directory_ber, read_directory_frame, directory_ber_length, crosses_boundary, out_of_fuel,
}
use jobman_control.Prelude.{
  ℕ, ◌+◌, ◌≤◌, List, [], ◌∷◌, ◌++◌, ok, err, ◌≡◌, refl, ◌≢◌, arith, length,
}

-- SEQUENCE { INTEGER 1, SEQUENCE { OCTET STRING "" } }
abbrev message : List ℕ
message = 48 ∷ 7 ∷ 2 ∷ 1 ∷ 1 ∷ 48 ∷ 2 ∷ 4 ∷ 0 ∷ []

validates : validate_directory_ber 0 0 message ≡ ok 4
unfolding validate_directory_ber
validates = refl

reads_message : read_directory_frame 100 (message ++ (7 ∷ [])) ≡ ok (message, 7 ∷ [])
unfolding read_directory_frame
reads_message = refl

refuses_crossing : validate_directory_ber 0 0 (48 ∷ 7 ∷ 2 ∷ []) ≡ err crosses_boundary
unfolding validate_directory_ber
refuses_crossing = refl

validate_directory_ber-Accepted_example : (0 ≤ 16) × Accepted 0 0 4 message
validate_directory_ber-Accepted_example = validate_directory_ber-Accepted 0 0 4 message validates

abbrev null_octets : List ℕ
null_octets = 5 ∷ 0 ∷ []

null_octets-Elements : Elements 0 null_octets 1
unfolding directory_ber_length
null_octets-Elements = primitive {size = 0} {offset = 2} refl (omega arith) refl no_elements

Elements-validate_directory_ber_example : validate_directory_ber 0 0 null_octets ≡ ok (0 + 1)
Elements-validate_directory_ber_example =
    Elements-validate_directory_ber 0 0 1 null_octets (omega arith) null_octets-Elements
      (omega arith)

validate_directory_ber_ends_example : validate_directory_ber 0 0 (48 ∷ 7 ∷ 2 ∷ []) ≢ err out_of_fuel
validate_directory_ber_ends_example = validate_directory_ber_ends 0 0 (48 ∷ 7 ∷ 2 ∷ [])

read_directory_frame-Accepted_example :
    (message ++ (7 ∷ []) ≡ message ++ (7 ∷ []))
    × (length message ≤ 100)
    × (length message ≤ 2097152)
    × ((m : ℕ) × Accepted 0 0 m message)
read_directory_frame-Accepted_example =
    read_directory_frame-Accepted 100 (message ++ (7 ∷ [])) message (7 ∷ []) reads_message
