-- ===== src/Directory/Frames.antt =====
-- What readDirectoryFrame reads.
use jobman_control.Directory.Bounds.{validate_directory_ber-Accepted}
use jobman_control.Directory.Elements.{Accepted, le_of_refuse}
use jobman_control.Directory.{
  read_full, read_header, read_body, directory_ber_length, validate_directory_ber, long_length,
  too_long, Refusal, read_directory_frame, exhausted, not_message,
}
use jobman_control.Prelude.{
  ◌%◌, ℕ, zero, suc, ◌+◌, ◌-◌, ◌≤◌, false, ◌||◌, not, List, [], ◌∷◌, ◌++◌, ◌==◌, ltb, ok, refuse,
  ◌≡◌, refl, sym, ap, ◌∙◌, arith, length, >>=-eq-ok, refuse-eq-ok, ok-injective, length-append,
}

read_full-eq-ok :
    (n : ℕ) (input xs rest : List ℕ)
    → read_full n input ≡ ok (xs, rest)
    → (xs ++ rest ≡ input) × (length xs ≡ n)
unfolding read_full
read_full-eq-ok zero input xs rest h = ground arith
read_full-eq-ok (suc n) [] xs rest h = cc
read_full-eq-ok (suc n) (b ∷ bs) xs rest h =
    let ((ys, left), inner, last) = >>=-eq-ok (read_full n bs) _ h in
    let (whole, size) = read_full-eq-ok n bs ys left inner in ground arith

-- The octets of the header, and what they say of where the content begins.
read_header-eq-ok :
    (budget b : ℕ) (rest more left : List ℕ)
    → 2 ≤ budget
    → read_header budget b rest ≡ ok (more, left)
    → (more ++ left ≡ rest) × (2 + length more ≤ budget) × (length more ≤ 4)
unfolding read_header
read_header-eq-ok budget b rest more left enough h =
    ground (arith, read_full-eq-ok (b % 128) rest more left)

read_header-offset :
    (budget t b size offset : ℕ) (rest more left : List ℕ)
    → read_header budget b rest ≡ ok (more, left)
    → directory_ber_length (t ∷ b ∷ more) ≡ ok (size, offset)
    → offset ≡ 2 + length more
unfolding read_header directory_ber_length long_length
read_header-offset budget t b size offset rest more left h e =
    ground (arith, read_full-eq-ok (b % 128) rest more left)

append_assoc : (xs ys zs : List ℕ) → (xs ++ ys) ++ zs ≡ xs ++ (ys ++ zs)
append_assoc [] ys zs = refl
append_assoc (x ∷ xs) ys zs = ap (λ l. x ∷ l) (append_assoc xs ys zs)

read_body-eq-ok :
    (budget : ℕ) (header rest frame left : List ℕ)
    → read_body budget header rest ≡ ok (frame, left)
    → (size : ℕ) × (offset : ℕ) × (body : List ℕ) × (m : ℕ) × (directory_ber_length header
        ≡ ok (size, offset))
      × (size ≤ 2097152 - offset)
      × (size ≤ budget - offset)
      × (read_full size rest ≡ ok (body, left))
      × (validate_directory_ber 0 0 (header ++ body) ≡ ok m)
      × (frame ≡ header ++ body)
unfolding read_body
read_body-eq-ok budget header rest frame left h =
    let ((size, offset), e, h1) = >>=-eq-ok (directory_ber_length header) _ h in
    let (_, fits, h2) =
      >>=-eq-ok (refuse (ltb (2097152 - offset) size || ltb (budget - offset) size) too_long) _
        h1 in
    let ((body, after), reads, h3) = >>=-eq-ok (read_full size rest) _ h2 in
    let (m, valid, last) = >>=-eq-ok (validate_directory_ber 0 0 (header ++ body)) _ h3 in
    let (small, within) =
      both_bounds size (2097152 - offset) (budget - offset) (refuse-eq-ok _ too_long fits) in
    let same = ok-injective {E = Refusal} (header ++ body, after) (frame, left) last in
    (
      size,
      offset,
      body,
      m,
      e,
      small,
      within,
      reads ∙ ap (λ (l : List ℕ). ok (body, l)) (ap (λ (p : List ℕ × List ℕ). p.1) same),
      valid,
      sym (ap (λ (p : List ℕ × List ℕ). p.0) same),
    )
  where
    both_bounds : (n a b : ℕ) → (ltb a n || ltb b n) ≡ false → (n ≤ a) × (n ≤ b)
    both_bounds n a b h = ground arith

-- A frame that is read is the beginning of the input, takes no more octets than the budget and than
-- the largest packet, and is a sequence of elements nested at most to depth 16.
pub read_directory_frame-Accepted :
    (budget : ℕ) (input frame left : List ℕ)
    → read_directory_frame budget input ≡ ok (frame, left)
    → (frame ++ left ≡ input)
      × (length frame ≤ budget)
      × (length frame ≤ 2097152)
      × ((m : ℕ) × Accepted 0 0 m frame)
unfolding read_directory_frame
read_directory_frame-Accepted budget [] frame left h = absurd (ground arith)
read_directory_frame-Accepted budget (t ∷ []) frame left h = absurd (ground arith)
read_directory_frame-Accepted budget (t ∷ b ∷ rest) frame left h =
    let (_, enough, h1) = >>=-eq-ok (refuse (ltb budget 2) exhausted) _ h in
    let (_, _, h2) = >>=-eq-ok (refuse (not (t == 48)) not_message) _ h1 in
    let ((more, after), header, last) = >>=-eq-ok (read_header budget b rest) _ h2 in
    whole more after header (le_of_refuse budget 2 exhausted enough) last
  where
    whole :
        (more after : List ℕ)
        → read_header budget b rest ≡ ok (more, after)
        → 2 ≤ budget
        → read_body budget (t ∷ b ∷ more) after ≡ ok (frame, left)
        → (frame ++ left ≡ t ∷ b ∷ rest)
          × (length frame ≤ budget)
          × (length frame ≤ 2097152)
          × ((m : ℕ) × Accepted 0 0 m frame)
    whole more after header enough h =
        let (size, offset, body, m, e, small, within, reads, valid, same) =
          read_body-eq-ok budget (t ∷ b ∷ more) after frame left h in
        let (joined, counted) = read_full-eq-ok size after body left reads in
        let (first, fits, short) = read_header-eq-ok budget b rest more after enough header in
        let begins = read_header-offset budget t b size offset rest more after header e in
        let total = length-append (t ∷ b ∷ more) body in
        rw same (
          append_assoc (t ∷ b ∷ more) body left ∙ rw (joined, first) refl,
          omega (arith, total, counted, begins, within, fits),
          omega (arith, total, counted, begins, small, short),
          (m, (validate_directory_ber-Accepted 0 0 m ((t ∷ b ∷ more) ++ body) valid).1),
        )
