-- ===== src/Directory.antt =====
-- internal/directory/bounds.go: the bounds that a response of the directory must keep before the
-- LDAP library decodes it. A byte is a number below 256.
pub mod Elements
pub mod Termination
pub mod Bounds
pub mod Frames
pub mod Examples
use jobman_control.Prelude.{
  ℕ, zero, suc, ◌+◌, ◌-◌, Bool, true, false, ◌||◌, not, List, [], ◌∷◌, ◌++◌, if◌then◌else◌, ◌==◌,
  ltb, Result, ok, err, ◌>>=◌, ◌>>◌, refuse, length, ◌%◌, ◌*◌, ◌/◌,
}

-- The errors that the source tells apart by text, and `out_of_fuel`, which is never returned.
pub data Refusal : Type 0 where
  bad_tag bad_length too_long too_deep too_many crosses_boundary : Refusal
  exhausted not_message short_read out_of_fuel : Refusal

abbrev pub drop : ℕ → List ℕ → List ℕ
drop zero xs = xs
drop (suc n) [] = []
drop (suc n) (x ∷ xs) = drop n xs

abbrev pub take : ℕ → List ℕ → List ℕ
take zero xs = []
take (suc n) [] = []
take (suc n) (x ∷ xs) = x ∷ take n xs

-- `b & 0x1f == 0x1f`, `b & 0x80 == 0`, `b & 0x20 != 0`
abbrev is_long_tag : ℕ → Bool
is_long_tag b = b % 32 == 31

abbrev is_short_length : ℕ → Bool
is_short_length b = (b / 128) % 2 == 0

abbrev pub is_constructed : List ℕ → Bool
is_constructed [] = false
is_constructed (b ∷ rest) = (b / 32) % 2 == 1

-- The loop over the length's octets; 8192 is `maximumDirectoryPacket >> 8`.
unfoldable pub read_length : ℕ → List ℕ → Result Refusal ℕ
read_length length [] = ok length
read_length length (b ∷ bs) =
    let rest = read_length (length * 256 + b) bs in if ltb 8192 length then err too_long else rest

long_length : ℕ → List ℕ → Result Refusal (ℕ × ℕ)
unfolding read_length
long_length count rest = do
  refuse (ltb count 1 || ltb 4 count || ltb (length rest) count) bad_length
  n ← read_length 0 (take count rest)
  ok (n, 2 + count)

-- The length of the first element's content, and where the content begins.
unfoldable pub directory_ber_length : List ℕ → Result Refusal (ℕ × ℕ)
unfolding long_length
directory_ber_length [] = err bad_tag
directory_ber_length (t ∷ []) = err bad_tag
directory_ber_length (t ∷ b ∷ rest) =
    if is_long_tag t
    then err bad_tag
    else (if is_short_length b then ok (b, 2) else long_length (b % 128) rest)

-- The call for the content of a constructed element, by the loop that it is given.
unfoldable pub content :
    (ℕ → ℕ → List ℕ → Result Refusal ℕ) → ℕ → ℕ → Bool → List ℕ → Result Refusal ℕ
content loop depth nodes false inside = ok nodes
content loop depth nodes true inside =
    if ltb 16 (suc depth) then err too_deep else loop (suc depth) nodes inside

-- The loop of validateDirectoryBER over the elements of `data`, on fuel; `nodes` counts the
-- elements seen so far.
unfoldable pub elements : ℕ → ℕ → ℕ → List ℕ → Result Refusal ℕ
unfolding content directory_ber_length
elements fuel depth nodes [] = ok nodes
elements zero depth nodes (b ∷ bs) = err out_of_fuel
elements (suc fuel) depth nodes (b ∷ bs) = do
  refuse (ltb 16384 (suc nodes)) too_many
  (size, offset) ← directory_ber_length (b ∷ bs)
  refuse (ltb (length (b ∷ bs) - offset) size) crosses_boundary
  nodes' ←
      content (λ d n xs. elements fuel d n xs) depth (suc nodes) (is_constructed (b ∷ bs))
        (take size (drop offset (b ∷ bs)))
  elements fuel depth nodes' (drop (offset + size) (b ∷ bs))

-- Each element has at least two octets, so the number of octets is enough fuel.
unfoldable pub validate_directory_ber : ℕ → ℕ → List ℕ → Result Refusal ℕ
unfolding elements
validate_directory_ber depth nodes data_ =
    if ltb 16 depth then err too_deep else elements (length data_) depth nodes data_

-- io.ReadFull: the next `n` octets, and what is left to read.
unfoldable pub read_full : ℕ → List ℕ → Result Refusal (List ℕ × List ℕ)
read_full zero input = ok ([], input)
read_full (suc n) [] = err short_read
read_full (suc n) (b ∷ bs) = do (xs, rest) ← read_full n bs; ok (b ∷ xs, rest)

-- The octets of a long length, none for a short one.
unfoldable pub read_header : ℕ → ℕ → List ℕ → Result Refusal (List ℕ × List ℕ)
unfolding read_full
read_header budget b rest =
    if is_short_length b
    then ok ([], rest)
    else (if ltb (b % 128) 1 || ltb 4 (b % 128) || ltb budget (2 + b % 128)
        then err bad_length
        else read_full (b % 128) rest)

-- The body of readDirectoryFrame once the header is read; 2097152 is maximumDirectoryPacket.
unfoldable pub read_body : ℕ → List ℕ → List ℕ → Result Refusal (List ℕ × List ℕ)
unfolding directory_ber_length read_full validate_directory_ber
read_body budget header rest = do
  (size, offset) ← directory_ber_length header
  refuse (ltb (2097152 - offset) size || ltb (budget - offset) size) too_long
  (body, left) ← read_full size rest
  _ ← validate_directory_ber 0 0 (header ++ body)
  ok (header ++ body, left)

-- `48` is 0x30. The frame, and what is left to read.
unfoldable pub read_directory_frame : ℕ → List ℕ → Result Refusal (List ℕ × List ℕ)
unfolding read_header read_body
read_directory_frame budget [] = if ltb budget 2 then err exhausted else err short_read
read_directory_frame budget (t ∷ []) = if ltb budget 2 then err exhausted else err short_read
read_directory_frame budget (t ∷ b ∷ rest) = do
  refuse (ltb budget 2) exhausted
  refuse (not (t == 48)) not_message
  (more, left) ← read_header budget b rest
  read_body budget (t ∷ b ∷ more) left
