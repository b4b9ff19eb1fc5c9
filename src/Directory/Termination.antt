-- ===== src/Directory/Termination.antt =====
-- The loop of validateDirectoryBER ends within its fuel, and accepts all that keeps the bounds.
use jobman_control.Directory.Elements.{
  no_elements, primitive, constructed, Elements, offset_bound, length-drop, length-take,
}
use jobman_control.Directory.{
  elements, directory_ber_length, take, drop, content, is_constructed, long_length, Refusal,
  out_of_fuel, read_length, too_long, too_deep, too_many, bad_length, crosses_boundary,
}
use jobman_control.Prelude.{
  ◌*◌, ◌%◌, ℕ, zero, suc, ◌+◌, ◌-◌, ◌≤◌, Bool, true, false, ◌||◌, List, [], ◌∷◌, ltb, Result, ok,
  err, refuse, ◌≡◌, refl, ap, ◌∙◌, inl, inr, ◌≢◌, arith, length, Bool-cases, err-injective,
  >>=-eq-err, refuse-eq-err,
}

module _ (fuel d nodes nodes' m b size offset : ℕ) (bs : List ℕ) where
  elements_cons :
      suc nodes ≤ 16384
      → directory_ber_length (b ∷ bs) ≡ ok (size, offset)
      → size ≤ length (b ∷ bs) - offset
      → content
          (λ d n xs. elements fuel d n xs)
          d
          (suc nodes)
          (is_constructed (b ∷ bs))
          (take size (drop offset (b ∷ bs)))
        ≡ ok nodes'
      → elements fuel d nodes' (drop (offset + size) (b ∷ bs)) ≡ ok m
      → elements (suc fuel) d nodes (b ∷ bs) ≡ ok m
  unfolding elements
  elements_cons few header fits inside rest =
      let below : ltb 16384 (suc nodes) ≡ false = ground arith in
      let within : ltb (length (b ∷ bs) - offset) size ≡ false = ground arith in
      rw (elements, below, header, within, inside) rest

  -- What follows the header, and what follows the element, are shorter than the whole.
  shorter_tail :
      directory_ber_length (b ∷ bs) ≡ ok (size, offset)
      → length (b ∷ bs) ≤ suc fuel
      → length (drop (offset + size) (b ∷ bs)) ≤ fuel
  shorter_tail header l =
      omega
        (arith, offset_bound (b ∷ bs) size offset header, length-drop (offset + size) (b ∷ bs), l)

  shorter_content :
      directory_ber_length (b ∷ bs) ≡ ok (size, offset)
      → length (b ∷ bs) ≤ suc fuel
      → length (take size (drop offset (b ∷ bs))) ≤ fuel
  shorter_content header l = omega (
    arith,
    offset_bound (b ∷ bs) size offset header,
    length-drop offset (b ∷ bs),
    length-take size (drop offset (b ∷ bs)),
    l,
  )

-- Every sequence of elements within the bounds is accepted, and counted.
pub Elements-elements :
    (fuel d nodes n : ℕ) (xs : List ℕ)
    → Elements d xs n
    → nodes + n ≤ 16384
    → length xs ≤ fuel
    → elements fuel d nodes xs ≡ ok (nodes + n)
unfolding elements content
Elements-elements fuel d nodes _ _ no_elements few l = ground arith
Elements-elements zero d nodes _ _ (primitive header fits plain tail) few l =
    absurd (omega (arith, l))
Elements-elements zero d nodes _ _ (constructed header fits inner deep body tail) few l =
    absurd (omega (arith, l))
Elements-elements (suc fuel) d nodes _ _
      (primitive {b = b} {size = size} {offset = offset} {n = n} {bs = bs} header fits plain tail)
      few l =
    elements_cons fuel d nodes (suc nodes) (suc nodes + n) b size offset bs (omega (arith, few))
      header fits (rw plain refl)
      (Elements-elements fuel d (suc nodes) n (drop (offset + size) (b ∷ bs)) tail
        (omega (arith, few)) (shorter_tail fuel d nodes nodes n b size offset bs header l))
    ∙ ap ok (omega arith)
Elements-elements (suc fuel) d nodes _ _
      (constructed {b = b} {size = size} {offset = offset} {k = k} {n = n} {bs = bs} header fits
        inner deep body tail)
      few l =
    let shallow : ltb 16 (suc d) ≡ false = ground arith in
    elements_cons fuel d nodes (suc nodes + k) (suc nodes + k + n) b size offset bs
      (omega (arith, few)) header fits
      (rw (inner, content, shallow)
        (Elements-elements fuel (suc d) (suc nodes) k (take size (drop offset (b ∷ bs))) body
          (omega (arith, few)) (shorter_content fuel d nodes nodes n b size offset bs header l)))
      (Elements-elements fuel d (suc nodes + k) n (drop (offset + size) (b ∷ bs)) tail
        (omega (arith, few)) (shorter_tail fuel d nodes nodes n b size offset bs header l))
    ∙ ap ok (omega arith)

read_length-eq-err : (n : ℕ) (bs : List ℕ) (e : Refusal) → read_length n bs ≡ err e → e ≡ too_long
unfolding read_length
read_length-eq-err n [] e h = cc
read_length-eq-err n (b ∷ bs) e h = ground (arith, read_length-eq-err (n * 256 + b) bs e)

long_length-keeps_fuel :
    (count : ℕ) (rest : List ℕ) (e : Refusal) → long_length count rest ≡ err e → e ≢ out_of_fuel
unfolding long_length
long_length-keeps_fuel count rest e h =
    elim (>>=-eq-err (refuse (ltb count 1 || ltb 4 count || ltb (length rest) count) bad_length) _
      h) [
        | inl refused ↦ λ same. cc (refuse-eq-err _ bad_length e refused)
        | inr (_, _, h1) ↦ elim (>>=-eq-err (read_length 0 (take count rest)) _ h1) [
          | inl long ↦ λ same. cc (read_length-eq-err 0 (take count rest) e long)
          | inr (n, _, last) ↦ λ same. cc
        ]
      ]

header-keeps_fuel : (xs : List ℕ) (e : Refusal) → directory_ber_length xs ≡ err e → e ≢ out_of_fuel
unfolding directory_ber_length
header-keeps_fuel [] e h = ground arith
header-keeps_fuel (t ∷ []) e h = ground arith
header-keeps_fuel (t ∷ b ∷ rest) e h = ground (arith, long_length-keeps_fuel (b % 128) rest e)

content-keeps_fuel :
    (loop : ℕ → ℕ → List ℕ → Result Refusal ℕ) (d nodes : ℕ) (inner : Bool) (xs : List ℕ)
    (e : Refusal)
    → (loop (suc d) nodes xs ≡ err e → e ≢ out_of_fuel)
    → content loop d nodes inner xs ≡ err e
    → e ≢ out_of_fuel
unfolding content
content-keeps_fuel loop d nodes false xs e keeps h = cc
content-keeps_fuel loop d nodes true xs e keeps h = elim (Bool-cases (ltb 16 (suc d))) [
  | inl deep ↦ λ same. cc (err-injective {A = ℕ} too_deep e (rw (content, deep) at h))
  | inr shallow ↦ keeps (rw (content, shallow) at h)
]

-- With as much fuel as there are octets, the loop does not run out of it.
pub elements_keeps_fuel :
    (fuel d nodes : ℕ) (xs : List ℕ) (e : Refusal)
    → length xs ≤ fuel
    → elements fuel d nodes xs ≡ err e
    → e ≢ out_of_fuel
unfolding elements
elements_keeps_fuel fuel d nodes [] e l h = cc
elements_keeps_fuel zero d nodes (b ∷ bs) e l h = absurd (omega (arith, l))
elements_keeps_fuel (suc fuel) d nodes (b ∷ bs) e l h =
    elim (>>=-eq-err (refuse (ltb 16384 (suc nodes)) too_many) _ h) [
      | inl refused ↦ λ same. cc (refuse-eq-err _ too_many e refused)
      | inr (_, _, h1) ↦ elim (>>=-eq-err (directory_ber_length (b ∷ bs)) _ h1) [
        | inl bad ↦ header-keeps_fuel (b ∷ bs) e bad
        | inr ((size, offset), header, h2) ↦
            elim (>>=-eq-err (refuse (ltb (length (b ∷ bs) - offset) size) crosses_boundary) _ h2) [
              | inl refused ↦ λ same. cc (refuse-eq-err _ crosses_boundary e refused)
              | inr (_, _, h3) ↦
                  elim (>>=-eq-err
                    (content (λ d n xs. elements fuel d n xs) d (suc nodes)
                      (is_constructed (b ∷ bs)) (take size (drop offset (b ∷ bs))))
                    _ h3) [
                      | inl inside ↦
                          content-keeps_fuel (λ d n xs. elements fuel d n xs) d (suc nodes)
                            (is_constructed (b ∷ bs)) (take size (drop offset (b ∷ bs))) e
                            (elements_keeps_fuel fuel (suc d) (suc nodes)
                              (take size (drop offset (b ∷ bs))) e
                              (shorter_content fuel d nodes nodes nodes b size offset bs header l))
                            inside
                      | inr (nodes', _, rest) ↦
                          elements_keeps_fuel fuel d nodes' (drop (offset + size) (b ∷ bs)) e
                            (shorter_tail fuel d nodes nodes nodes b size offset bs header l) rest
                    ]
            ]
      ]
    ]
