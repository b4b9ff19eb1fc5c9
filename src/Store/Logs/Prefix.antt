-- ===== src/Store/Logs/Prefix.antt =====
-- The contiguous prefix of a stream: contiguousLogProjection, and what GetJobLogs exposes by it.
use jobman_control.Store.Logs.Chunks.{Chained, Chained-above}
use jobman_control.Store.Rows.{ChunkRow}
use jobman_control.Store.Logs.{project, Projection, chunk_end, read_chunk, has_sequence}
use jobman_control.Prelude.{
  ℕ, suc, ◌≤◌, ◌<◌, true, false, none, find?, List, [], ◌∷◌, ◌==◌, leb, ok, ◌≡◌, refl, ◌∙◌, inl,
  inr, arith, All, Bool-cases, where_rows,
}

-- Chunks numbered s + 1, …, t one by one that fill the bytes from `e` up to `f`.
abbrev pub Tiles : ℕ → ℕ → List ChunkRow → ℕ → ℕ → Type 0
Tiles s e [] t f = (s ≡ t) × (e ≡ f)
Tiles s e (c ∷ cs) t f =
    (c.sequence ≡ suc s) × (c.byte_offset ≡ e) × Tiles c.sequence (chunk_end c) cs t f

abbrev pub up_to : ℕ → List ChunkRow → List ChunkRow
up_to n cs = where_rows (λ (c : ChunkRow). leb c.sequence n) cs

pub none_up_to :
    (n : ℕ) (cs : List ChunkRow) → All (λ (d : ChunkRow). n < d.sequence) cs → up_to n cs ≡ []
none_up_to n [] h = refl
none_up_to n (c ∷ cs) h = ground (arith, none_up_to n cs h.1)

eq_of :
    (c : ChunkRow) (p : Projection)
    → c.byte_offset ≡ p.byte_length
    → (c.byte_offset == p.byte_length) ≡ true
eq_of c p h = ground arith

pub project_step :
    (p : Projection) (c : ChunkRow) (cs : List ChunkRow)
    → (c.sequence == suc p.last_sequence) ≡ true
    → c.byte_offset ≡ p.byte_length
    → c.complete ≡ false
    → project p (c ∷ cs) ≡ project (read_chunk p c) cs
unfolding project
project_step p c cs follows here more = rw (follows, eq_of c p here, more) refl

project_last :
    (p : Projection) (c : ChunkRow) (cs : List ChunkRow)
    → (c.sequence == suc p.last_sequence) ≡ true
    → c.byte_offset ≡ p.byte_length
    → c.complete ≡ true
    → project p (c ∷ cs) ≡ ok (read_chunk p c)
unfolding project
project_last p c cs follows here over = rw (follows, eq_of c p here, over) refl

none_numbered :
    (n s : ℕ) (cs : List ChunkRow)
    → n ≤ s
    → All (λ (d : ChunkRow). s < d.sequence) cs
    → find? (has_sequence n) cs ≡ none
none_numbered n s [] b h = refl
none_numbered n s (c ∷ cs) b h = ground (arith, none_numbered n s cs b h.1)

-- The loop of the projection over a chain never meets a gap in the bytes: it returns, the chunks
-- that it read are one run that fills the bytes it counted, and the chunk numbered next is missing.
pub project-Tiles :
    (p : Projection) (cs : List ChunkRow)
    → Chained p.last_sequence p.byte_length cs
    → (q : Projection) × (project p cs ≡ ok q)
      × (p.last_sequence ≤ q.last_sequence)
      × (find? (has_sequence (suc q.last_sequence)) cs ≡ none)
      × Tiles p.last_sequence p.byte_length (up_to q.last_sequence cs) q.last_sequence q.byte_length
unfolding read_chunk project
project-Tiles p [] h = (p, unfold project in refl, omega arith, refl, (refl, refl))
project-Tiles p (c ∷ cs) h = elim (Bool-cases (c.sequence == suc p.last_sequence)) [
  | inr gap ↦
      let above = Chained-above p.last_sequence p.byte_length (c ∷ cs) h in
      let later = Chained-above c.sequence (chunk_end c) cs h.3 in
      let none_left = none_up_to p.last_sequence (c ∷ cs) above in
      let next : suc p.last_sequence ≤ c.sequence = omega (arith, h.0) in
      let missing : find? (has_sequence (suc p.last_sequence)) (c ∷ cs) ≡ none =
        rw gap (none_numbered (suc p.last_sequence) c.sequence cs next later) in
      (p, rw (project, gap) refl, omega arith, missing, rw none_left (refl, refl))
  | inl follows ↦
      let here : c.byte_offset ≡ p.byte_length = h.1 (ground arith) in
      let number : c.sequence ≡ suc p.last_sequence = ground arith in
      let (q, runs, grows, missing, tiles) = project-Tiles (read_chunk p c) cs (rw here at h.3) in
      elim (Bool-cases c.complete) [
        | inl over ↦
            let self : leb c.sequence c.sequence ≡ true = ground arith in
            let past : (c.sequence == suc c.sequence) ≡ false = ground arith in
            (
              read_chunk p c,
              project_last p c cs follows here over,
              omega (arith, number),
              rw (h.2 over, past) refl,
              rw (h.2 over, self, here) (number, refl, (refl, refl)),
            )
        | inr more ↦
            let reached : leb c.sequence q.last_sequence ≡ true = ground (arith, grows) in
            let past : (c.sequence == suc q.last_sequence) ≡ false = ground (arith, grows) in
            (
              q,
              project_step p c cs follows here more ∙ runs,
              omega (arith, grows, number),
              rw past missing,
              rw (reached, here) (number, refl, tiles),
            )
      ]
]

-- A projection that meets no terminal chunk reports no truncation.
pub project-truncated :
    (p q : Projection) (cs : List ChunkRow)
    → p.truncated ≡ false
    → project p cs ≡ ok q
    → q.complete ≡ false
    → q.truncated ≡ false
unfolding project read_chunk
project-truncated p q [] t h e = ground arith
project-truncated p q (c ∷ cs) t h e = ground (arith, project-truncated (read_chunk p c) q cs)
