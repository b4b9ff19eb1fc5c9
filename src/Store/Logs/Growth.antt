-- ===== src/Store/Logs/Growth.antt =====
-- What readers see of a stream between two deliveries.
use jobman_control.Store.Logs.Prefix.{project_step, Tiles, up_to, none_up_to}
use jobman_control.Store.Logs.Chunks.{Neighbour, Chained, Chained-above}
use jobman_control.Store.Logs.Commit.{absent_of_digest, clashes-Neighbour, inserted-Chained}
use jobman_control.Store.Logs.Streams.{
  StreamFits, deliver_chunk-cases, append_chunk-eq-ok, positive_of, projection_of,
}
use jobman_control.Store.Logs.{
  has_sequence, advance_stream, insert_chunk, deliver_chunk, chunk_row, chunk_end, project,
  read_chunk, Projection, contiguous_log_projection, exposed_chunks,
}
use jobman_control.Store.LogKeys.{is_malformed}
use jobman_control.Store.Rows.{Error, LogChunk, ChunkRow, StreamRow}
use mathlib.Core.List.{append-nil}
use jobman_control.Prelude.{
  ℕ, suc, ◌≤◌, ◌<◌, Bool, true, false, none, List, [], ◌∷◌, ◌++◌, ◌==◌, ltb, leb, ok, ◌≡◌, refl,
  sym, ap, ◌∙◌, ◌⊎◌, inl, inr, arith, find?, All, Bool-cases, to_ℕ, ok-injective,
}

-- The projection counts upwards.
project_grows :
    (p q : Projection) (cs : List ChunkRow)
    → project p cs ≡ ok q
    → (p.last_sequence ≤ q.last_sequence) × (p.byte_length ≤ q.byte_length)
unfolding project read_chunk
project_grows p q [] h = ground arith
project_grows p q (c ∷ cs) h = ground (arith, project_grows (read_chunk p c) q cs)

project_same_head :
    (p q q' : Projection) (d : ChunkRow) (ds es : List ChunkRow)
    → project p (d ∷ ds) ≡ ok q
    → project p (d ∷ es) ≡ ok q'
    → (q ≡ q') ⊎ (project (read_chunk p d) ds ≡ ok q) × (project (read_chunk p d) es ≡ ok q')
unfolding project
project_same_head p q q' d ds es h h' = elim (Bool-cases (d.sequence == suc p.last_sequence)) [
  | inr gap ↦
      inl (ok-injective {E = Error} q q' (sym (rw (project, gap) at h) ∙ rw (project, gap) at h'))
  | inl follows ↦ elim (Bool-cases (d.byte_offset == p.byte_length)) [
    | inr apart ↦ absurd (ground arith)
    | inl here ↦ elim (Bool-cases d.complete) [
      | inl over ↦ inl (
          ok-injective {E = Error} q q' (
            sym (rw (project, follows, here, over) at h) ∙ rw (project, follows, here, over) at h'))
      | inr more ↦
          let offset : d.byte_offset ≡ p.byte_length = ground arith in
          inr (
            sym (project_step p d ds follows offset more) ∙ h,
            sym (project_step p d es follows offset more) ∙ h',
          )
    ]
  ]
]

-- One more chunk takes nothing from the projection.
project-insert_chunk :
    (c : ChunkRow) (p q q' : Projection) (cs : List ChunkRow)
    → p.last_sequence < c.sequence
    → All (Neighbour c) cs
    → project p cs ≡ ok q
    → project p (insert_chunk c cs) ≡ ok q'
    → (q.last_sequence ≤ q'.last_sequence) × (q.byte_length ≤ q'.byte_length)
unfolding project read_chunk
project-insert_chunk c p q q' [] b n h h' = ground (arith, project_grows p q' (c ∷ []) h')
project-insert_chunk c p q q' (d ∷ ds) b n h h' = elim (Bool-cases (ltb c.sequence d.sequence)) [
  | inl first ↦
      let gap : (d.sequence == suc p.last_sequence) ≡ false = ground arith in
      let stops : p ≡ q = ok-injective {E = Error} p q (rw (project, gap) at h) in
      rw (sym stops) (project_grows p q' (c ∷ d ∷ ds) (rw first at h'))
  | inr later ↦
      let lt : d.sequence < c.sequence = ground (arith, n.0.other) in
      elim (project_same_head p q q' d ds (insert_chunk c ds) h (rw later at h')) [
        | inl same ↦ rw same (omega arith, omega arith)
        | inr (k, k') ↦ project-insert_chunk c (read_chunk p d) q q' ds lt n.1 k k'
      ]
]

-- A chunk with a higher number is not among the first ones.
up_to-insert_chunk :
    (n : ℕ) (c : ChunkRow) (cs : List ChunkRow)
    → n < c.sequence
    → up_to n (insert_chunk c cs) ≡ up_to n cs
up_to-insert_chunk n c [] b = ground arith
up_to-insert_chunk n c (d ∷ ds) b = ground (arith, up_to-insert_chunk n c ds b)

-- The chunks of a chain up to a number begin with those up to a lower one.
up_to-Chained :
    (n m s e : ℕ) (cs : List ChunkRow)
    → n ≤ m
    → Chained s e cs
    → (rest : List ChunkRow) × (up_to m cs ≡ up_to n cs ++ rest)
up_to-Chained n m s e [] b h = ([], refl)
up_to-Chained n m s e (c ∷ cs) b h = elim (Bool-cases (leb c.sequence n)) [
  | inl low ↦
      let also : leb c.sequence m ≡ true = ground arith in
      let (rest, more) = up_to-Chained n m c.sequence (chunk_end c) cs b h.3 in
      (rest, rw (low, also, more) refl)
  | inr high ↦
      let above : n ≤ c.sequence = ground arith in
      let later =
        none_up_to n cs
          (raised n c.sequence cs above (Chained-above c.sequence (chunk_end c) cs h.3)) in
      (up_to m (c ∷ cs), rw (high, later) refl)
]
  where
    raised :
        (n k : ℕ) (cs : List ChunkRow)
        → n ≤ k
        → All (λ (d : ChunkRow). k < d.sequence) cs
        → All (λ (d : ChunkRow). n < d.sequence) cs
    raised n k [] b h = tt
    raised n k (d ∷ ds) b h = (omega (arith, b, h.0), raised n k ds b h.1)

find?-up_to :
    (n k : ℕ) (cs : List ChunkRow)
    → find? (has_sequence k) cs ≡ none
    → find? (has_sequence k) (up_to n cs) ≡ none
find?-up_to n k [] h = refl
find?-up_to n k (c ∷ cs) h = ground (arith, find?-up_to n k cs)

-- A number that a run lacks lies behind it.
Tiles-behind :
    (s e t f k : ℕ) (cs : List ChunkRow)
    → Tiles s e cs t f
    → s < k
    → find? (has_sequence k) cs ≡ none
    → t < k
Tiles-behind s e t f k [] h b miss = omega (arith, h.0)
Tiles-behind s e t f k (c ∷ cs) h b miss =
    Tiles-behind c.sequence (chunk_end c) t f k cs h.2 (ground (arith, h.0)) (ground arith)

exposed_stays :
    (c : ChunkRow) (s : StreamRow) (last : ℕ)
    → StreamFits s
    → find? (has_sequence c.sequence) s.chunks ≡ none
    → 1 ≤ c.sequence
    → s.last_sequence ≤ last
    → Chained 0 0 (insert_chunk c s.chunks)
    → (rest : List ChunkRow) × (up_to last (insert_chunk c s.chunks) ≡ exposed_chunks s ++ rest)
exposed_stays c s last f absent positive further chained =
    let behind : s.last_sequence < c.sequence =
      Tiles-behind 0 0 s.last_sequence s.byte_length c.sequence (exposed_chunks s) f.tiles
        (omega (arith, positive)) (find?-up_to s.last_sequence c.sequence s.chunks absent) in
    let stays = up_to-insert_chunk s.last_sequence c s.chunks behind in
    let (rest, more) =
      up_to-Chained s.last_sequence last 0 0 (insert_chunk c s.chunks) further chained in
    (rest, more ∙ ap (λ xs. xs ++ rest) stays)

-- A delivery of a well formed chunk, new or repeated, takes nothing from readers: the chunks that
-- they saw are still the first ones that they see, the same and in the same order, and the
-- stream's last sequence number and its length do not fall.
pub deliver_chunk_grows :
    (now : ℕ) (chunk : LogChunk) (s s' : StreamRow) (again : Bool)
    → is_malformed chunk ≡ false
    → StreamFits s
    → deliver_chunk now chunk s ≡ ok (again, s')
    → (s.last_sequence ≤ s'.last_sequence)
      × (s.byte_length ≤ s'.byte_length)
      × (rest : List ChunkRow) × (exposed_chunks s' ≡ exposed_chunks s ++ rest)
unfolding advance_stream contiguous_log_projection chunk_row
deliver_chunk_grows now chunk s s' again form f h =
    elim (deliver_chunk-cases now chunk s s' again h) [
      | inl (same, _, _) ↦
          rw same (omega arith, omega arith, [], sym (append-nil (exposed_chunks s)))
      | inr (unseen, _, appended) ↦
          let (_, fits, _, (q, runs, same)) = append_chunk-eq-ok now chunk s s' appended in
          let positive = positive_of now chunk s s' form in
          let absent = absent_of_digest (to_ℕ chunk.sequence) s.chunks f.digests unseen in
          let c = chunk_row chunk in
          let chained = inserted-Chained c s.chunks fits positive absent f.chained in
          let (further, longer) =
            project-insert_chunk c
              (record { last_sequence = 0; byte_length = 0; complete = false; truncated = false })
              (projection_of s) q s.chunks positive
              (clashes-Neighbour c s.chunks fits positive absent f.chained) f.projected runs in
          let (rest, more) = exposed_stays c s q.last_sequence f absent positive further chained in
          rw same (further, longer, rest, more)
    ]
