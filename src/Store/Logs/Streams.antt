-- ===== src/Store/Logs/Streams.antt =====
-- What a stream keeps between two deliveries, and how a delivery changes it.
use jobman_control.Store.Logs.Commit.{HasDigest, absent_of_digest, inserted-Chained}
use jobman_control.Store.Logs.Prefix.{Tiles, project-truncated, up_to, project-Tiles}
use jobman_control.Store.Logs.Chunks.{Chained}
use jobman_control.Store.Logs.{
  contiguous_log_projection, advance_stream, append_chunk, insert_chunk, Projection, is_capturing,
  chunk_row, exposed_chunks, clashes, existing_digest, conflict, check_violation, deliver_chunk,
  idempotency_conflict,
}
use jobman_control.Store.LogKeys.{is_malformed, is_manifest_checksum}
use jobman_control.Store.Rows.{Error, LogChunk, StreamRow, ChunkRow}
use jobman_control.Prelude.{
  ℕ, ◌-◌, ◌≤◌, Bool, true, false, ◌||◌, not, List, [], ◌∷◌, if◌then◌else◌, str_eq, ◌==◌, ltb,
  Result, ok, err, refuse, ◌≡◌, refl, sym, ◌∙◌, ◌⊎◌, inl, inr, arith, All, Bool-cases, to_ℕ,
  ok-injective, >>=-eq-ok, refuse-eq-ok,
}

abbrev pub projection_of : StreamRow → Projection
projection_of s = record {
  last_sequence = s.last_sequence;
  byte_length = s.byte_length;
  complete = not (is_capturing s.state);
  truncated = s.truncated;
}

-- The chunks form a chain, the columns of the stream are the projection of its chunks, and the
-- chunks that readers see are one run that fills the bytes from 0 to the stream's length.
pub record StreamFits (s : StreamRow) : Type 0 where
  pub chained : Chained 0 0 s.chunks
  pub digests : All HasDigest s.chunks
  pub projected : contiguous_log_projection s.chunks ≡ ok (projection_of s)
  pub tiles : Tiles 0 0 (exposed_chunks s) s.last_sequence s.byte_length
  pub open_truncated : is_capturing s.state ≡ true → s.truncated ≡ false

All-insert_chunk :
    (P : ChunkRow → Type 0) (c : ChunkRow) (cs : List ChunkRow)
    → P c
    → All P cs
    → All P (insert_chunk c cs)
All-insert_chunk P c [] p h = (p, tt)
All-insert_chunk P c (d ∷ ds) p h = elim (Bool-cases (ltb c.sequence d.sequence)) [
  | inl first ↦ rw first (p, h)
  | inr later ↦ rw later (h.0, All-insert_chunk P c ds p h.1)
]

-- The projection of a chain, as the transaction starts it.
contiguous_log_projection-Tiles :
    (cs : List ChunkRow)
    → Chained 0 0 cs
    → (q : Projection) × (contiguous_log_projection cs ≡ ok q)
      × Tiles 0 0 (up_to q.last_sequence cs) q.last_sequence q.byte_length
unfolding contiguous_log_projection
contiguous_log_projection-Tiles cs h =
    let (q, runs, _, _, tiles) =
      project-Tiles
        (record { last_sequence = 0; byte_length = 0; complete = false; truncated = false }) cs h in
    (q, runs, tiles)

contiguous_log_projection-truncated :
    (cs : List ChunkRow) (q : Projection)
    → contiguous_log_projection cs ≡ ok q
    → q.complete ≡ false
    → q.truncated ≡ false
unfolding contiguous_log_projection
contiguous_log_projection-truncated cs q h =
    project-truncated
      (record { last_sequence = 0; byte_length = 0; complete = false; truncated = false }) q cs refl
      h

first_of_refusal : (a b c : Bool) → (not a || not b || not c) ≡ false → a ≡ true
first_of_refusal a b c h = ground arith

true_of_not : (a : Bool) → not a ≡ false → a ≡ true
true_of_not a h = ground arith

or_false : (a b : Bool) → (a || b) ≡ false → (a ≡ false) × (b ≡ false)
or_false a b h = ground arith

nonzero : (n : ℕ) → (n == 0) ≡ false → 1 ≤ n
nonzero n h = ground arith

-- What a successful append tested and did.
module _ (now : ℕ) (chunk : LogChunk) (s s' : StreamRow) where
  pub append_chunk-eq-ok :
      append_chunk now chunk s ≡ ok s'
      → (is_capturing s.state ≡ true)
        × (clashes (chunk_row chunk) s.chunks ≡ false)
        × (is_manifest_checksum chunk.document_digest ≡ true)
        × ((q : Projection) × (contiguous_log_projection (insert_chunk (chunk_row chunk) s.chunks)
              ≡ ok q)
            × (s' ≡ advance_stream now s (insert_chunk (chunk_row chunk) s.chunks) q))
  unfolding append_chunk
  append_chunk-eq-ok h =
      let (_, _, h1) =
        >>=-eq-ok
          (refuse (ltb (9223372036854775807 - to_ℕ chunk.byte_length) (to_ℕ chunk.byte_offset))
            conflict)
          _ h in
      let (_, same, h2) =
        >>=-eq-ok
          (refuse
            (not (is_capturing s.state)
              || not (str_eq s.store_name chunk.store_name)
              || not (s.store_version == chunk.store_version))
            conflict)
          _ h1 in
      let (_, fits, h3) = >>=-eq-ok (refuse (clashes (chunk_row chunk) s.chunks) conflict) _ h2 in
      let (_, digest, h4) =
        >>=-eq-ok (refuse (not (is_manifest_checksum chunk.document_digest)) check_violation) _
          h3 in
      let (q, runs, last) =
        >>=-eq-ok (contiguous_log_projection (insert_chunk (chunk_row chunk) s.chunks)) _ h4 in
      (
        first_of_refusal _ _ _ (refuse-eq-ok _ conflict same),
        refuse-eq-ok _ conflict fits,
        true_of_not _ (refuse-eq-ok _ check_violation digest),
        (q, runs, sym (ok-injective {E = Error} _ s' last)),
      )

  advanced_projection :
      (q : Projection) (cs : List ChunkRow)
      → (q.complete ≡ false → q.truncated ≡ false)
      → is_capturing s.state ≡ true
      → StreamFits s
      → projection_of (advance_stream now s cs q) ≡ q
  unfolding advance_stream
  advanced_projection q cs t capturing f = ground (arith, f.open_truncated capturing)

  advanced_truncated :
      (q : Projection) (cs : List ChunkRow)
      → is_capturing s.state ≡ true
      → StreamFits s
      → is_capturing (advance_stream now s cs q).state ≡ true
      → (advance_stream now s cs q).truncated ≡ false
  unfolding advance_stream
  advanced_truncated q cs capturing f goes_on = ground (arith, f.open_truncated capturing)

  pub positive_of : is_malformed chunk ≡ false → 1 ≤ to_ℕ chunk.sequence
  unfolding is_malformed
  positive_of h = nonzero (to_ℕ chunk.sequence) ((or_false _ _ (or_false _ _ h).0).1)

  -- A new chunk keeps the stream well formed.
  append_chunk-StreamFits :
      is_malformed chunk ≡ false
      → str_eq (existing_digest (to_ℕ chunk.sequence) s.chunks) "" ≡ true
      → StreamFits s
      → append_chunk now chunk s ≡ ok s'
      → StreamFits s'
  unfolding advance_stream chunk_row
  append_chunk-StreamFits form unseen f h =
      let (capturing, fits, digest, (q, runs, same)) = append_chunk-eq-ok h in
      let absent = absent_of_digest (to_ℕ chunk.sequence) s.chunks f.digests unseen in
      let chained =
        inserted-Chained (chunk_row chunk) s.chunks fits (positive_of form) absent f.chained in
      let (r, runs', tiles) =
        contiguous_log_projection-Tiles (insert_chunk (chunk_row chunk) s.chunks) chained in
      let agree : r ≡ q = ok-injective {E = Error} r q (sym runs' ∙ runs) in
      rw same (record {
        chained = chained;
        digests = All-insert_chunk HasDigest (chunk_row chunk) s.chunks digest f.digests;
        projected =
            rw
              (advanced_projection q (insert_chunk (chunk_row chunk) s.chunks)
                (contiguous_log_projection-truncated _ q runs) capturing f)
              runs;
        tiles = rw agree at tiles;
        open_truncated = λ goes_on.
            advanced_truncated q (insert_chunk (chunk_row chunk) s.chunks) capturing f goes_on;
      })

  -- A delivery that succeeds repeats a chunk, and changes nothing, or appends one.
  pub deliver_chunk-cases :
      (again : Bool)
      → deliver_chunk now chunk s ≡ ok (again, s')
      → (s' ≡ s)
          × (again ≡ true)
          × (str_eq (existing_digest (to_ℕ chunk.sequence) s.chunks) "" ≡ false)
        ⊎ (str_eq (existing_digest (to_ℕ chunk.sequence) s.chunks) "" ≡ true)
          × (again ≡ false)
          × (append_chunk now chunk s ≡ ok s')
  unfolding deliver_chunk
  deliver_chunk-cases again h =
      elim (Bool-cases (str_eq (existing_digest (to_ℕ chunk.sequence) s.chunks) "")) [
        | inl unseen ↦
            let (t, appended, last) =
              >>=-eq-ok (append_chunk now chunk s) _ (rw (deliver_chunk, unseen) at h) in
            let same : t ≡ s' = ground (arith, last) in
            inr (unseen, ground (arith, last), rw same at appended)
        | inr seen ↦
            let (same, repeated) =
              repeats
                (str_eq (existing_digest (to_ℕ chunk.sequence) s.chunks) chunk.document_digest)
                again (rw (deliver_chunk, seen) at h) in
            inl (same, repeated, seen)
      ]
    where
      repeats :
          (b again : Bool)
          → (if◌then◌else◌ {A = Result Error (Bool × StreamRow)} b
              (ok (true, s))
              (err idempotency_conflict))
            ≡ ok (again, s')
          → (s' ≡ s) × (again ≡ true)
      repeats b again h = ground arith

  -- A delivery, new or repeated, of a well formed chunk keeps the stream well formed.
  pub deliver_chunk-StreamFits :
      (again : Bool)
      → is_malformed chunk ≡ false
      → StreamFits s
      → deliver_chunk now chunk s ≡ ok (again, s')
      → StreamFits s'
  deliver_chunk-StreamFits again form f h = elim (deliver_chunk-cases again h) [
    | inl (same, _, _) ↦ rw same f
    | inr (unseen, _, appended) ↦ append_chunk-StreamFits form unseen f appended
  ]

  -- A complete stream does not change any more.
  pub deliver_chunk_to_complete :
      (again : Bool)
      → is_capturing s.state ≡ false
      → deliver_chunk now chunk s ≡ ok (again, s')
      → (s' ≡ s) × (again ≡ true)
  deliver_chunk_to_complete again over h = elim (deliver_chunk-cases again h) [
    | inl (same, repeated, _) ↦ (same, repeated)
    | inr (_, _, appended) ↦ absurd (ground (arith, (append_chunk-eq-ok appended).0))
  ]
