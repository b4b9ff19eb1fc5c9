-- ===== src/Store/Logs/Commit.antt =====
-- What a delivery does to the stream that it locks.
use jobman_control.Store.Logs.Chunks.{
  Neighbour, Chained, insert_chunk-Chained, find?-Chained, terminal_sequence-Chained,
  maximum_sequence-bounds,
}
use jobman_control.Store.Rows.{ChunkRow}
use jobman_control.Store.Logs.{
  existing_digest, clashes, has_sequence, prior_end, next_offset, terminal_sequence,
  maximum_sequence, insert_chunk,
}
use jobman_control.Store.LogKeys.{is_manifest_checksum}
use jobman_control.Prelude.{
  ℕ, suc, ◌-◌, ◌≤◌, String, true, false, none, some, List, [], ◌∷◌, str_eq, ◌≡◌, sym, inl, inr, ◌≢◌,
  arith, eq_iff, find?, All, Option-cases, find?-Member, All_of_Member,
}

-- A digest that the table accepts is not empty.
abbrev pub HasDigest : ChunkRow → Type 0
HasDigest c = is_manifest_checksum c.document_digest ≡ true

pub nonempty_checksum : (s : String) → is_manifest_checksum s ≡ true → s ≢ ""
unfolding is_manifest_checksum
nonempty_checksum s h e = absurd (no_empty (rw e at h))
  where
    no_empty : is_manifest_checksum "" ≡ true → ⊥
    no_empty h = cc

-- No chunk has the number of a chunk whose digest is not found.
pub absent_of_digest :
    (n : ℕ) (cs : List ChunkRow)
    → All HasDigest cs
    → str_eq (existing_digest n cs) "" ≡ true
    → find? (has_sequence n) cs ≡ none
unfolding existing_digest
absent_of_digest n cs g h = elim (Option-cases (find? (has_sequence n) cs)) [
  | inl absent ↦ absent
  | inr (c, found) ↦
      let (m, _) = find?-Member (has_sequence n) cs c found in
      let empty : str_eq c.document_digest "" ≡ true = rw (existing_digest, found) at h in
      absurd (
        nonempty_checksum c.document_digest (All_of_Member HasDigest cs c g m)
          ((eq_iff c.document_digest "").0 empty))
]

module _ (c : ChunkRow) (cs : List ChunkRow) where
  clashes-Neighbour_of :
      (d : ChunkRow)
      → clashes c cs ≡ false
      → 1 ≤ c.sequence
      → find? (has_sequence c.sequence) cs ≡ none
      → ((k : ℕ) → d.sequence ≡ k → find? (has_sequence k) cs ≡ some d)
      → (d.complete ≡ true → terminal_sequence cs ≡ some d.sequence)
      → d.sequence ≤ maximum_sequence cs
      → Neighbour c d
  unfolding clashes prior_end next_offset
  clashes-Neighbour_of d ok_now positive absent at end bound = record {
    other = λ e. ground (arith, at c.sequence (sym e));
    before = λ e. ground (arith, at (c.sequence - 1));
    after = λ e. ground (arith, at (suc c.sequence) e);
    open_before = λ t. ground (arith, end t);
    last = λ t. ground arith;
  }

  clashes-Neighbours :
      (ds : List ChunkRow)
      → clashes c cs ≡ false
      → 1 ≤ c.sequence
      → find? (has_sequence c.sequence) cs ≡ none
      → ((k : ℕ) → All (λ (d : ChunkRow). d.sequence ≡ k → find? (has_sequence k) cs ≡ some d) ds)
      → All (λ (d : ChunkRow). d.complete ≡ true → terminal_sequence cs ≡ some d.sequence) ds
      → All (λ (d : ChunkRow). d.sequence ≤ maximum_sequence cs) ds
      → All (Neighbour c) ds
  clashes-Neighbours [] ok_now positive absent at end bound = tt
  clashes-Neighbours (d ∷ ds) ok_now positive absent at end bound = (
    clashes-Neighbour_of d ok_now positive absent (λ k. (at k).0) end.0 bound.0,
    clashes-Neighbours ds ok_now positive absent (λ k. (at k).1) end.1 bound.1,
  )

  -- A new chunk that passes the test fits each chunk of the stream.
  pub clashes-Neighbour :
      clashes c cs ≡ false
      → 1 ≤ c.sequence
      → find? (has_sequence c.sequence) cs ≡ none
      → Chained 0 0 cs
      → All (Neighbour c) cs
  clashes-Neighbour ok_now positive absent h =
      clashes-Neighbours cs ok_now positive absent (λ k. find?-Chained 0 0 k cs h)
        (terminal_sequence-Chained 0 0 cs h)
        (maximum_sequence-bounds (maximum_sequence cs) cs (omega arith))

  -- So it extends the chain.
  pub inserted-Chained :
      clashes c cs ≡ false
      → 1 ≤ c.sequence
      → find? (has_sequence c.sequence) cs ≡ none
      → Chained 0 0 cs
      → Chained 0 0 (insert_chunk c cs)
  unfolding clashes
  inserted-Chained ok_now positive absent h =
      insert_chunk-Chained c cs 0 0 (omega (arith, positive)) (λ one. ground arith)
        (clashes-Neighbour ok_now positive absent h) h
