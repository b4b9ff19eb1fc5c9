-- ===== src/Store/Examples/Streams.antt =====
-- Log chunks delivered, again, and out of order.
use jobman_control.Store.Logs.Prefix.{Tiles, up_to, project-Tiles}
use jobman_control.Store.Logs.Redelivery.{deliver_chunk_again}
use jobman_control.Store.Logs.Growth.{deliver_chunk_grows}
use jobman_control.Store.Rows.{StreamRow, LogChunk, ChunkRow}
use jobman_control.Store.Logs.Streams.{
  StreamFits, deliver_chunk_to_complete, deliver_chunk-StreamFits,
}
use jobman_control.Store.LogKeys.{is_malformed, eight_digits}
use jobman_control.Store.Logs.{
  new_stream, deliver_chunk, Projection, contiguous_log_projection, is_capturing, project,
  exposed_chunks, has_sequence,
}
use jobman_control.Prelude.{
  ℕ, suc, ◌≤◌, String, Bool, true, false, none, List, ◌++◌, find?, ok, err, ◌≡◌, refl, pos,
}

abbrev zeros : String
zeros = "sha256:0000000000000000000000000000000000000000000000000000000000000000"

abbrev chunk : ℕ → ℕ → ℕ → Bool → LogChunk
chunk n offset size last = record {
  execution_id = "e1";
  agent_id = "a1";
  stream = "stdout";
  sequence = pos n;
  store_name = "logs";
  store_version = 1;
  object_key = "k";
  byte_offset = pos offset;
  byte_length = pos size;
  checksum = zeros;
  captured_at = 7;
  complete = last;
  truncated = false;
  document_digest = zeros;
  document = "{}";
}

abbrev empty : StreamRow
empty = new_stream (chunk 1 0 10 false)

empty-StreamFits : StreamFits empty
unfolding new_stream contiguous_log_projection
empty-StreamFits = record {
  chained = tt;
  digests = tt;
  projected = refl;
  tiles = (refl, refl);
  open_truncated = λ _. refl;
}

abbrev after : StreamRow → LogChunk → StreamRow
after s c = elim (deliver_chunk 9 c s) [ ok (_, s') ↦ s' | err _ ↦ s ]

abbrev early : StreamRow
early = after empty (chunk 2 10 5 true)

abbrev full : StreamRow
full = after early (chunk 1 0 10 false)

-- The second chunk comes first, and is shown once the first has come.
takes_early : deliver_chunk 9 (chunk 2 10 5 true) empty ≡ ok (false, early)
unfolding deliver_chunk new_stream
takes_early = refl

takes_first : deliver_chunk 9 (chunk 1 0 10 false) early ≡ ok (false, full)
unfolding deliver_chunk new_stream
takes_first = refl

shows : (early.byte_length ≡ 0) × (full.byte_length ≡ 15) × (is_capturing full.state ≡ false)
unfolding deliver_chunk new_stream
shows = (refl, refl, refl)

key_text : eight_digits 42 ≡ "00000042"
unfolding eight_digits
key_text = refl

well_formed : (n offset : ℕ) → is_malformed (chunk 2 10 5 true) ≡ false
unfolding is_malformed
well_formed n offset = refl

well_formed_first : is_malformed (chunk 1 0 10 false) ≡ false
unfolding is_malformed
well_formed_first = refl

deliver_chunk-StreamFits_example : StreamFits early
deliver_chunk-StreamFits_example =
    deliver_chunk-StreamFits 9 (chunk 2 10 5 true) empty early false (well_formed 0 0)
      empty-StreamFits takes_early

early-StreamFits : StreamFits early
early-StreamFits =
    deliver_chunk-StreamFits 9 (chunk 2 10 5 true) empty early false (well_formed 0 0)
      empty-StreamFits takes_early

deliver_chunk_again_example : deliver_chunk 11 (chunk 1 0 10 false) full ≡ ok (true, full)
deliver_chunk_again_example =
    deliver_chunk_again 9 11 (chunk 1 0 10 false) early full false early-StreamFits takes_first

deliver_chunk_grows_example :
    (early.last_sequence ≤ full.last_sequence)
    × (early.byte_length ≤ full.byte_length)
    × (rest : List ChunkRow) × (exposed_chunks full ≡ exposed_chunks early ++ rest)
deliver_chunk_grows_example =
    deliver_chunk_grows 9 (chunk 1 0 10 false) early full false well_formed_first early-StreamFits
      takes_first

deliver_chunk_to_complete_example : (full ≡ full) × (true ≡ true)
deliver_chunk_to_complete_example =
    deliver_chunk_to_complete 11 (chunk 1 0 10 false) full full true shows.2
      deliver_chunk_again_example

abbrev zero_projection : Projection
zero_projection = record { last_sequence = 0; byte_length = 0; complete = false; truncated = false }

project-Tiles_example :
    (q : Projection) × (project zero_projection full.chunks ≡ ok q)
    × (0 ≤ q.last_sequence)
    × (find? (has_sequence (suc q.last_sequence)) full.chunks ≡ none)
    × Tiles 0 0 (up_to q.last_sequence full.chunks) q.last_sequence q.byte_length
project-Tiles_example =
    project-Tiles zero_projection full.chunks
      (deliver_chunk-StreamFits 9 (chunk 1 0 10 false) early full false well_formed_first
        early-StreamFits takes_first).chained
