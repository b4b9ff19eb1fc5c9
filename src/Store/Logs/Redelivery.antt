-- ===== src/Store/Logs/Redelivery.antt =====
-- Deliveries are idempotent.
use jobman_control.Store.Logs.Commit.{absent_of_digest, nonempty_checksum}
use jobman_control.Store.Logs.Streams.{StreamFits, deliver_chunk-cases, append_chunk-eq-ok}
use jobman_control.Store.Logs.{
  has_sequence, advance_stream, insert_chunk, deliver_chunk, existing_digest, chunk_row,
  idempotency_conflict,
}
use jobman_control.Store.Rows.{Error, LogChunk, ChunkRow, StreamRow}
use jobman_control.Prelude.{
  ℕ, String, Bool, true, false, none, some, List, [], ◌∷◌, if◌then◌else◌, str_eq, Result, ok, err,
  ◌≡◌, refl, inl, inr, ◌≢◌, arith, eq_iff, eq_refl, find?, to_ℕ,
}

find-insert_chunk :
    (c : ChunkRow) (cs : List ChunkRow)
    → find? (has_sequence c.sequence) cs ≡ none
    → find? (has_sequence c.sequence) (insert_chunk c cs) ≡ some c
find-insert_chunk c [] h = ground arith
find-insert_chunk c (d ∷ ds) h = ground (arith, find-insert_chunk c ds)

-- The digest that a stream shows for the number of a chunk.
module _ (later : ℕ) (chunk : LogChunk) (s : StreamRow) where
  deliver_seen :
      (existing_digest (to_ℕ chunk.sequence) s.chunks ≡ chunk.document_digest)
      → chunk.document_digest ≢ ""
      → deliver_chunk later chunk s ≡ ok (true, s)
  unfolding deliver_chunk
  deliver_seen e n = rw (e, miss, eq_refl chunk.document_digest) refl
    where
      miss : str_eq chunk.document_digest "" ≡ false
      miss = ground (arith, eq_iff chunk.document_digest "")

module _ (now later : ℕ) (chunk : LogChunk) (s s' : StreamRow) where
  seen_digest :
      (again : Bool)
      → deliver_chunk now chunk s ≡ ok (again, s')
      → str_eq (existing_digest (to_ℕ chunk.sequence) s.chunks) "" ≡ false
      → (s' ≡ s) × (existing_digest (to_ℕ chunk.sequence) s.chunks ≡ chunk.document_digest)
  unfolding deliver_chunk
  seen_digest again h seen =
      repeats (existing_digest (to_ℕ chunk.sequence) s.chunks) again (rw (deliver_chunk, seen) at h)
    where
      repeats :
          (digest : String) (again : Bool)
          → (if◌then◌else◌ {A = Result Error (Bool × StreamRow)}
              (str_eq digest chunk.document_digest)
              (ok (true, s))
              (err idempotency_conflict))
            ≡ ok (again, s')
          → (s' ≡ s) × (digest ≡ chunk.document_digest)
      repeats digest again h = ground (arith, eq_iff digest chunk.document_digest)

  -- A delivery that succeeded is answered as repeated when it is made again, and then changes
  -- nothing.
  pub deliver_chunk_again :
      (again : Bool)
      → StreamFits s
      → deliver_chunk now chunk s ≡ ok (again, s')
      → deliver_chunk later chunk s' ≡ ok (true, s')
  unfolding advance_stream chunk_row existing_digest
  deliver_chunk_again again f h = elim (deliver_chunk-cases now chunk s s' again h) [
    | inl (_, _, seen) ↦
        let (same, digest) = seen_digest again h seen in
        rw same (
          deliver_seen later chunk s digest
            (λ e. ground (arith, eq_iff (existing_digest (to_ℕ chunk.sequence) s.chunks) "")))
    | inr (unseen, _, appended) ↦
        let (_, _, digest, (q, _, same)) = append_chunk-eq-ok now chunk s s' appended in
        let found =
          find-insert_chunk (chunk_row chunk) s.chunks
            (absent_of_digest (to_ℕ chunk.sequence) s.chunks f.digests unseen) in
        deliver_seen later chunk s' (rw (same, existing_digest, found) refl)
          (nonempty_checksum chunk.document_digest digest)
  ]
