-- ===== src/Store/Logs.antt =====
-- internal/store/postgres/logs.go: CommitLogChunk and contiguousLogProjection, and the chunks that
-- GetJobLogs reads of a stream. The chunks of a stream are kept in the order of their primary key.
-- The unique object key of a chunk spells its own primary key, so it refuses nothing more.
pub mod Chunks
pub mod Prefix
pub mod Commit
pub mod Delivery
pub mod Streams
pub mod Redelivery
pub mod Growth
pub mod Tables
use jobman_control.Store.LogKeys.{is_manifest_checksum}
use jobman_control.Store.EventChecks.{is_some}
use jobman_control.Store.Rows.{
  LogChunk, ChunkRow, StreamRow, StreamState, Error, idempotency_conflict, conflict,
  check_violation,
}
use jobman_control.Prelude.{
  ℕ, suc, ◌+◌, ◌-◌, String, Bool, true, false, ◌&&◌, ◌||◌, not, Option, none, some, List, [], ◌∷◌,
  if◌then◌else◌, str_eq, ◌==◌, ltb, leb, Result, ok, err, ◌>>=◌, ◌>>◌, refuse, find?, max,
  where_rows, to_ℕ,
}

unfoldable pub new_stream : LogChunk → StreamRow
new_stream chunk = record {
  stream = chunk.stream;
  store_name = chunk.store_name;
  store_version = chunk.store_version;
  state = StreamState.capturing;
  byte_length = 0;
  last_sequence = 0;
  truncated = false;
  completed_at = none;
  chunks = [];
}

abbrev pub has_sequence : ℕ → ChunkRow → Bool
has_sequence n c = c.sequence == n

abbrev pub chunk_end : ChunkRow → ℕ
chunk_end c = c.byte_offset + c.byte_length

-- At most one row has a given sequence number, which the aggregates then read.
unfoldable pub existing_digest : ℕ → List ChunkRow → String
existing_digest n cs = elim (find? (has_sequence n) cs) [ none ↦ "" | some c ↦ c.document_digest ]

unfoldable pub prior_end : ℕ → List ChunkRow → Option ℕ
prior_end n cs = elim (find? (has_sequence (n - 1)) cs) [
  | none ↦ none
  | some c ↦ some (chunk_end c)
]

unfoldable pub next_offset : ℕ → List ChunkRow → Option ℕ
next_offset n cs = elim (find? (has_sequence (suc n)) cs) [
  | none ↦ none
  | some c ↦ some c.byte_offset
]

abbrev pub maximum_sequence : List ChunkRow → ℕ
maximum_sequence [] = 0
maximum_sequence (c ∷ cs) = max c.sequence (maximum_sequence cs)

abbrev latest : ℕ → Option ℕ → ℕ
latest n none = n
latest n (some m) = max n m

abbrev pub terminal_sequence : List ChunkRow → Option ℕ
terminal_sequence [] = none
terminal_sequence (c ∷ cs) =
    let rest = terminal_sequence cs in if c.complete then some (latest c.sequence rest) else rest

abbrev pub disagrees : Option ℕ → ℕ → Bool
disagrees none n = false
disagrees (some m) n = not (m == n)

abbrev pub is_past : ℕ → Option ℕ → Bool
is_past n none = false
is_past n (some t) = leb t n

-- The test of a new chunk against those that the stream has.
unfoldable pub clashes : ChunkRow → List ChunkRow → Bool
unfolding prior_end next_offset
clashes c cs =
    c.sequence == 1 && not (c.byte_offset == 0)
    || disagrees (prior_end c.sequence cs) c.byte_offset
    || disagrees (next_offset c.sequence cs) (chunk_end c)
    || is_past c.sequence (terminal_sequence cs)
    || c.complete && (is_some (terminal_sequence cs) || leb c.sequence (maximum_sequence cs))

unfoldable pub chunk_row : LogChunk → ChunkRow
chunk_row chunk = record {
  sequence = to_ℕ chunk.sequence;
  object_key = chunk.object_key;
  byte_offset = to_ℕ chunk.byte_offset;
  byte_length = to_ℕ chunk.byte_length;
  checksum = chunk.checksum;
  captured_at = chunk.captured_at;
  complete = chunk.complete;
  truncated = chunk.truncated;
  document_digest = chunk.document_digest;
  document = chunk.document;
}

abbrev pub insert_chunk : ChunkRow → List ChunkRow → List ChunkRow
insert_chunk c [] = c ∷ []
insert_chunk c (d ∷ ds) = if ltb c.sequence d.sequence then c ∷ d ∷ ds else d ∷ insert_chunk c ds

-- What contiguousLogProjection returns.
pub record Projection : Type 0 where
  pub last_sequence : ℕ
  pub byte_length : ℕ
  pub complete : Bool
  pub truncated : Bool

unfoldable pub read_chunk : Projection → ChunkRow → Projection
read_chunk p c = record {
  last_sequence = c.sequence;
  byte_length = p.byte_length + c.byte_length;
  complete = c.complete;
  truncated = c.complete && c.truncated;
}

-- The rest of the loop, once the chunks up to `p.last_sequence` are read.
unfoldable pub project : Projection → List ChunkRow → Result Error Projection
unfolding read_chunk
project p [] = ok p
project p (c ∷ cs) =
    let next = read_chunk p c in
    let rest = project next cs in
    if not (c.sequence == suc p.last_sequence)
    then ok p
    else (if not (c.byte_offset == p.byte_length)
        then err conflict
        else (if c.complete then ok next else rest))

unfoldable pub contiguous_log_projection : List ChunkRow → Result Error Projection
unfolding project
contiguous_log_projection =
    project (record { last_sequence = 0; byte_length = 0; complete = false; truncated = false })

abbrev pub is_capturing : StreamState → Bool
is_capturing StreamState.capturing = true
is_capturing StreamState.complete = false

-- The UPDATE of the stream.
unfoldable pub advance_stream : ℕ → StreamRow → List ChunkRow → Projection → StreamRow
advance_stream now s cs p = record s {
  byte_length = p.byte_length;
  last_sequence = p.last_sequence;
  state = if p.complete then StreamState.complete else s.state;
  truncated = if p.complete then p.truncated else s.truncated;
  completed_at = if p.complete then some now else s.completed_at;
  chunks = cs;
}

-- A chunk whose sequence number is new to its stream; log_chunks has a CHECK of the digest's form.
unfoldable pub append_chunk : ℕ → LogChunk → StreamRow → Result Error StreamRow
unfolding clashes chunk_row is_manifest_checksum contiguous_log_projection advance_stream
append_chunk now chunk s = do
  refuse (ltb (9223372036854775807 - to_ℕ chunk.byte_length) (to_ℕ chunk.byte_offset)) conflict
  refuse
      (not (is_capturing s.state)
        || not (str_eq s.store_name chunk.store_name)
        || not (s.store_version == chunk.store_version))
      conflict
  refuse (clashes (chunk_row chunk) s.chunks) conflict
  refuse (not (is_manifest_checksum chunk.document_digest)) check_violation
  let cs = insert_chunk (chunk_row chunk) s.chunks
  p ← contiguous_log_projection cs
  ok (advance_stream now s cs p)

-- The locked stream, after a delivery.
unfoldable pub deliver_chunk : ℕ → LogChunk → StreamRow → Result Error (Bool × StreamRow)
unfolding existing_digest append_chunk
deliver_chunk now chunk s =
    if str_eq (existing_digest (to_ℕ chunk.sequence) s.chunks) ""
    then (append_chunk now chunk s >>= λ s'. ok (false, s'))
    else (if str_eq (existing_digest (to_ℕ chunk.sequence) s.chunks) chunk.document_digest
        then ok (true, s)
        else err idempotency_conflict)

-- What GetJobLogs reads of a stream.
abbrev pub exposed_chunks : StreamRow → List ChunkRow
exposed_chunks s = where_rows (λ (c : ChunkRow). leb c.sequence s.last_sequence) s.chunks
