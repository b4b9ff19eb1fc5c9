-- ===== src/Store/LogKeys.antt =====
-- internal/store/postgres/logs.go: what CommitLogChunk tests of a chunk before it locks the stream:
-- its numbers, its checksum, its store and the key of its object.
use jobman_control.Store.Rows.{LogChunk, Job, ArtifactStoreBinding}
use jobman_control.Prelude.{
  ℕ, zero, suc, String, Bool, true, ◌&&◌, ◌||◌, not, Option, none, some, if◌then◌else◌, str_eq,
  ◌==◌, ltb, leb, ◌/◌, is_negative, ◌%◌, to_ℕ, ℤ,
}
use text.Mathlib.Text.{starts_with}
use Prim.Native.String.{len, slice, char_at, ◌++◌ as concat}
use Prim.Native.Char.{code}

abbrev is_hex_code : ℕ → Bool
is_hex_code c = leb 48 c && leb c 57 || leb 97 c && leb c 102

hex_from : String → ℕ → ℕ → Bool
hex_from s i zero = true
hex_from s i (suc n) = is_hex_code (code (char_at s i)) && hex_from s (suc i) n

-- `^sha256:[0-9a-f]{64}$`
unfoldable pub is_manifest_checksum : String → Bool
unfolding hex_from
is_manifest_checksum s = starts_with s "sha256:" && len s == 71 && hex_from s 7 64

-- The last `width` decimal digits.
padded : ℕ → ℕ → String
padded zero n = ""
padded (suc width) n = concat (padded width (n / 10)) (slice "0123456789" (n % 10) (suc (n % 10)))

decimal_width : ℕ → ℕ → ℕ
decimal_width zero n = 0
decimal_width (suc fuel) n =
    let rest = decimal_width fuel (n / 10) in if n == 0 then 0 else suc rest

-- `%08d` of a number that is not negative; 64 bits have at most 19 digits.
unfoldable pub eight_digits : ℕ → String
unfolding padded decimal_width
eight_digits n = padded (if ltb n 100000000 then 8 else decimal_width 19 n) n

unfoldable pub log_object_key : Job → LogChunk → String
unfolding eight_digits
log_object_key j chunk = concat "namespaces/" (
    concat j.namespace (
      concat "/jobs/" (
        concat j.id (
          concat "/executions/" (
            concat chunk.execution_id (
              concat "/logs/" (
                concat chunk.stream
                  (concat "/" (concat (eight_digits (to_ℕ chunk.sequence)) ".chunk")))))))))

abbrev pub is_below_one : ℤ → Bool
is_below_one z = is_negative z || to_ℕ z == 0

-- The first test of CommitLogChunk.
unfoldable pub is_malformed : LogChunk → Bool
unfolding is_manifest_checksum
is_malformed chunk =
    is_below_one chunk.sequence
    || (is_negative chunk.byte_offset
        || is_negative chunk.byte_length
        || ltb 262144 (to_ℕ chunk.byte_length)
        || not (str_eq chunk.stream "stdout") && not (str_eq chunk.stream "stderr")
        || not (is_manifest_checksum chunk.checksum)
        || to_ℕ chunk.byte_length == 0 && not chunk.complete
        || chunk.truncated && not chunk.complete)

unfoldable pub approved_store : LogChunk → Option ArtifactStoreBinding → Bool
approved_store chunk none = str_eq chunk.store_name "" && chunk.store_version == 0
approved_store chunk (some b) = str_eq chunk.store_name b.name && chunk.store_version == b.version
