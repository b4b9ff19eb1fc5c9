-- ===== src/Directory/Elements.antt =====
-- validateDirectoryBER accepts exactly the sequences of elements that keep its bounds.
use jobman_control.Directory.{
  directory_ber_length, elements, drop, take, content, long_length, is_constructed, too_many,
  crosses_boundary, Refusal,
}
use jobman_control.Prelude.{
  ℕ, zero, suc, ◌+◌, ◌-◌, ◌≤◌, ◌<◌, true, false, List, [], ◌∷◌, ltb, Result, ok, refuse, ◌≡◌, refl,
  ◌⊎◌, inl, inr, arith, length, Bool-cases, >>=-eq-ok, refuse-eq-ok,
}

-- `data_` is a sequence of `n` elements, nested ones counted, of which those at depth `d` contain
-- others only to depth 16.
pub data Elements : ℕ → List ℕ → ℕ → Type 0 where
  no_elements : {d : ℕ} → Elements d [] 0
  primitive :
      {d b size offset n : ℕ} {bs : List ℕ}
      → directory_ber_length (b ∷ bs) ≡ ok (size, offset)
      → size ≤ length (b ∷ bs) - offset
      → is_constructed (b ∷ bs) ≡ false
      → Elements d (drop (offset + size) (b ∷ bs)) n
      → Elements d (b ∷ bs) (suc n)
  constructed :
      {d b size offset k n : ℕ} {bs : List ℕ}
      → directory_ber_length (b ∷ bs) ≡ ok (size, offset)
      → size ≤ length (b ∷ bs) - offset
      → is_constructed (b ∷ bs) ≡ true
      → d < 16
      → Elements (suc d) (take size (drop offset (b ∷ bs))) k
      → Elements d (drop (offset + size) (b ∷ bs)) n
      → Elements d (b ∷ bs) (suc (k + n))

pub length-drop : (n : ℕ) (xs : List ℕ) → length (drop n xs) ≡ length xs - n
length-drop zero xs = omega arith
length-drop (suc n) [] = omega arith
length-drop (suc n) (x ∷ xs) = omega (arith, length-drop n xs)

pub length-take : (n : ℕ) (xs : List ℕ) → length (take n xs) ≤ length xs
length-take zero xs = omega arith
length-take (suc n) [] = omega arith
length-take (suc n) (x ∷ xs) = omega (arith, length-take n xs)

-- A header takes two octets or more.
pub offset_bound :
    (xs : List ℕ) (size offset : ℕ) → directory_ber_length xs ≡ ok (size, offset) → 2 ≤ offset
unfolding directory_ber_length long_length
offset_bound [] size offset h = cc
offset_bound (t ∷ []) size offset h = cc
offset_bound (t ∷ b ∷ rest) size offset h = ground arith

-- What the loop counted of a sequence that it accepted.
abbrev pub Accepted : ℕ → ℕ → ℕ → List ℕ → Type 0
Accepted d nodes m xs = (n : ℕ) × Elements d xs n × (m ≡ nodes + n) × ((n ≡ 0) ⊎ (m ≤ 16384))

pub le_of_refuse : (a b : ℕ) (e : Refusal) {u : Unit {0}} → refuse (ltb a b) e ≡ ok u → b ≤ a
le_of_refuse a b e h = ground (arith, refuse-eq-ok (ltb a b) e h)

elements_step :
    (fuel d nodes m b : ℕ) (bs : List ℕ)
    → elements (suc fuel) d nodes (b ∷ bs) ≡ ok m
    → (size : ℕ) × (offset : ℕ) × (nodes' : ℕ) × (suc nodes ≤ 16384)
      × (directory_ber_length (b ∷ bs) ≡ ok (size, offset))
      × (size ≤ length (b ∷ bs) - offset)
      × (content
            (λ d n xs. elements fuel d n xs)
            d
            (suc nodes)
            (is_constructed (b ∷ bs))
            (take size (drop offset (b ∷ bs)))
          ≡ ok nodes')
      × (elements fuel d nodes' (drop (offset + size) (b ∷ bs)) ≡ ok m)
unfolding elements
elements_step fuel d nodes m b bs h =
    let (_, few, h1) = >>=-eq-ok (refuse (ltb 16384 (suc nodes)) too_many) _ h in
    let ((size, offset), header, h2) = >>=-eq-ok (directory_ber_length (b ∷ bs)) _ h1 in
    let (_, fits, h3) =
      >>=-eq-ok (refuse (ltb (length (b ∷ bs) - offset) size) crosses_boundary) _ h2 in
    let (nodes', inside, rest) =
      >>=-eq-ok
        (content (λ d n xs. elements fuel d n xs) d (suc nodes) (is_constructed (b ∷ bs))
          (take size (drop offset (b ∷ bs))))
        _ h3 in
    (
      size,
      offset,
      nodes',
      le_of_refuse 16384 (suc nodes) too_many few,
      header,
      le_of_refuse (length (b ∷ bs) - offset) size crosses_boundary fits,
      inside,
      rest,
    )

module _ (fuel d nodes nodes' m b size offset : ℕ) (bs : List ℕ) where
  Accepted-primitive :
      suc nodes ≤ 16384
      → directory_ber_length (b ∷ bs) ≡ ok (size, offset)
      → size ≤ length (b ∷ bs) - offset
      → is_constructed (b ∷ bs) ≡ false
      → suc nodes ≡ nodes'
      → Accepted d nodes' m (drop (offset + size) (b ∷ bs))
      → Accepted d nodes m (b ∷ bs)
  Accepted-primitive few header fits plain same (n, tail, count, bound) = (
    suc n,
    primitive header fits plain tail,
    omega (arith, count, same),
    inr (ground (arith, bound)),
  )

  Accepted-constructed :
      suc nodes ≤ 16384
      → directory_ber_length (b ∷ bs) ≡ ok (size, offset)
      → size ≤ length (b ∷ bs) - offset
      → is_constructed (b ∷ bs) ≡ true
      → d < 16
      → Accepted (suc d) (suc nodes) nodes' (take size (drop offset (b ∷ bs)))
      → Accepted d nodes' m (drop (offset + size) (b ∷ bs))
      → Accepted d nodes m (b ∷ bs)
  Accepted-constructed few header fits inner deep (k, body, count, bound)
        (n, tail, count', bound') =
      (
        suc (k + n),
        constructed header fits inner deep body tail,
        omega (arith, count, count'),
        inr (ground (arith, bound, bound')),
      )

content-constructed :
    (loop : ℕ → ℕ → List ℕ → Result Refusal ℕ) (d nodes m : ℕ) (xs : List ℕ)
    → content loop d nodes true xs ≡ ok m
    → (d < 16) × (loop (suc d) nodes xs ≡ ok m)
unfolding content
content-constructed loop d nodes m xs h = ground arith

content-primitive :
    (loop : ℕ → ℕ → List ℕ → Result Refusal ℕ) (d nodes m : ℕ) (xs : List ℕ)
    → content loop d nodes false xs ≡ ok m
    → nodes ≡ m
unfolding content
content-primitive loop d nodes m xs h = ground arith

-- What the loop accepts is a sequence of elements, and the count that it returns is theirs.
pub elements-Accepted :
    (fuel d nodes m : ℕ) (xs : List ℕ) → elements fuel d nodes xs ≡ ok m → Accepted d nodes m xs
unfolding elements
elements-Accepted fuel d nodes m [] h = (0, no_elements, ground arith, inl refl)
elements-Accepted zero d nodes m (b ∷ bs) h = cc
elements-Accepted (suc fuel) d nodes m (b ∷ bs) h =
    let (size, offset, nodes', few, header, fits, inside, rest) =
      elements_step fuel d nodes m b bs h in
    let tail = elements-Accepted fuel d nodes' m (drop (offset + size) (b ∷ bs)) rest in
    elim (Bool-cases (is_constructed (b ∷ bs))) [
      | inr plain ↦
          Accepted-primitive fuel d nodes nodes' m b size offset bs few header fits plain
            (content-primitive (λ d n xs. elements fuel d n xs) d (suc nodes) nodes'
              (take size (drop offset (b ∷ bs))) (rw plain at inside))
            tail
      | inl inner ↦
          let (deep, body) =
            content-constructed (λ d n xs. elements fuel d n xs) d (suc nodes) nodes'
              (take size (drop offset (b ∷ bs))) (rw inner at inside) in
          Accepted-constructed fuel d nodes nodes' m b size offset bs few header fits inner deep
            (elements-Accepted fuel (suc d) (suc nodes) nodes' (take size (drop offset (b ∷ bs)))
              body)
            tail
    ]
