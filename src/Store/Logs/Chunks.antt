-- ===== src/Store/Logs/Chunks.antt =====
-- The chunks of a stream: what they keep between two deliveries, and that a delivery keeps it.
use jobman_control.Store.Logs.{
  insert_chunk, chunk_end, maximum_sequence, terminal_sequence, has_sequence,
}
use jobman_control.Store.Rows.{ChunkRow}
use jobman_control.Prelude.{
  ℕ, suc, ◌≤◌, ◌<◌, true, false, some, List, [], ◌∷◌, ltb, ◌≡◌, refl, sym, inl, inr, ◌≢◌, arith,
  find?, All, Bool-cases, subst,
}

-- The chunks after the one numbered `s`, which ends at byte `e`: their numbers rise, a number that
-- follows the last one directly begins where that one ended, and only the last chunk is terminal.
abbrev pub Chained : ℕ → ℕ → List ChunkRow → Type 0
Chained s e [] = Unit
Chained s e (c ∷ cs) =
    (s < c.sequence)
    × (c.sequence ≡ suc s → c.byte_offset ≡ e)
    × (c.complete ≡ true → cs ≡ [])
    × Chained c.sequence (chunk_end c) cs

-- What the tests of a new chunk leave between it and a chunk of the stream.
pub record Neighbour (c d : ChunkRow) : Type 0 where
  pub other : c.sequence ≢ d.sequence
  pub before : c.sequence ≡ suc d.sequence → c.byte_offset ≡ chunk_end d
  pub after : d.sequence ≡ suc c.sequence → d.byte_offset ≡ chunk_end c
  pub open_before : d.complete ≡ true → c.sequence < d.sequence
  pub last : c.complete ≡ true → d.sequence < c.sequence

-- A chunk that fits its neighbours is inserted into the chain.
pub insert_chunk-Chained :
    (c : ChunkRow) (cs : List ChunkRow) (s e : ℕ)
    → s < c.sequence
    → (c.sequence ≡ suc s → c.byte_offset ≡ e)
    → All (Neighbour c) cs
    → Chained s e cs
    → Chained s e (insert_chunk c cs)
insert_chunk-Chained c [] s e b f n h = (b, f, λ _. refl, tt)
insert_chunk-Chained c (d ∷ ds) s e b f n h = elim (Bool-cases (ltb c.sequence d.sequence)) [
  | inl first ↦
      rw first
        (b, f, (λ t. absurd (ground (arith, n.0.last t))), (ground arith, n.0.after, h.2, h.3))
  | inr later ↦ rw later (
    h.0,
    h.1,
    λ t. absurd (ground (arith, n.0.open_before t)),
    insert_chunk-Chained c ds d.sequence (chunk_end d) (ground (arith, n.0.other)) n.0.before n.1
        h.3,
  )
]

rises :
    (s : ℕ) (c : ChunkRow) (cs : List ChunkRow)
    → s < c.sequence
    → All (λ (d : ChunkRow). c.sequence < d.sequence) cs
    → All (λ (d : ChunkRow). s < d.sequence) cs
rises s c [] b h = tt
rises s c (d ∷ ds) b h = (omega (arith, b, h.0), rises s c ds b h.1)

-- The numbers of a chain rise.
pub Chained-above :
    (s e : ℕ) (cs : List ChunkRow) → Chained s e cs → All (λ (d : ChunkRow). s < d.sequence) cs
Chained-above s e [] h = tt
Chained-above s e (c ∷ cs) h =
    (h.0, rises s c cs h.0 (Chained-above c.sequence (chunk_end c) cs h.3))

-- Each row of a chain is the one that its number selects.
find_later :
    (c : ChunkRow) (cs : List ChunkRow) (k : ℕ) (ds : List ChunkRow)
    → All (λ (d : ChunkRow). c.sequence < d.sequence) ds
    → All (λ (d : ChunkRow). d.sequence ≡ k → find? (has_sequence k) cs ≡ some d) ds
    → All (λ (d : ChunkRow). d.sequence ≡ k → find? (has_sequence k) (c ∷ cs) ≡ some d) ds
find_later c cs k [] b h = tt
find_later c cs k (d ∷ ds) b h = (λ e. ground (arith, h.0 e), find_later c cs k ds b.1 h.1)

pub find?-Chained :
    (s e k : ℕ) (cs : List ChunkRow)
    → Chained s e cs
    → All (λ (d : ChunkRow). d.sequence ≡ k → find? (has_sequence k) cs ≡ some d) cs
find?-Chained s e k [] h = tt
find?-Chained s e k (c ∷ cs) h = (
  λ same. ground arith,
  find_later c cs k cs (Chained-above c.sequence (chunk_end c) cs h.3)
      (find?-Chained c.sequence (chunk_end c) k cs h.3),
)

-- The terminal chunk of a chain is the one that the aggregate finds.
pub terminal_sequence-Chained :
    (s e : ℕ) (cs : List ChunkRow)
    → Chained s e cs
    → All (λ (d : ChunkRow). d.complete ≡ true → terminal_sequence cs ≡ some d.sequence) cs
terminal_sequence-Chained s e [] h = tt
terminal_sequence-Chained s e (c ∷ []) h = (λ t. rw t refl, tt)
terminal_sequence-Chained s e (c ∷ d ∷ ds) h =
    let goes_on : c.complete ≡ false = ground (arith, h.2) in
    let same : terminal_sequence (c ∷ d ∷ ds) ≡ terminal_sequence (d ∷ ds) = rw goes_on refl in
    (
      λ t. absurd (ground arith),
      subst (λ x. All (λ (k : ChunkRow). k.complete ≡ true → x ≡ some k.sequence) (d ∷ ds))
          (sym same) (terminal_sequence-Chained c.sequence (chunk_end c) (d ∷ ds) h.3),
    )

pub maximum_sequence-bounds :
    (m : ℕ) (cs : List ChunkRow)
    → maximum_sequence cs ≤ m
    → All (λ (d : ChunkRow). d.sequence ≤ m) cs
maximum_sequence-bounds m [] h = tt
maximum_sequence-bounds m (c ∷ cs) h =
    (omega (arith, h), maximum_sequence-bounds m cs (omega (arith, h)))
