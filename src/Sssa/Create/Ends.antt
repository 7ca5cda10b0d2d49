-- ===== src/Sssa/Create/Ends.antt =====
-- `CreateFromInt` ends with shares when enough different numbers are drawn.
use address_verification.Base.{
  ℕ, zero, suc, ◌+◌, ◌≤◌, ◌<◌, ◌≡◌, refl, ap, List, [], ◌∷◌, ◌++◌, some, true, false, not, ltb,
  arith, length,
}
use address_verification.Base.Int.{pos}
use address_verification.Sssa.Base64.{to_base64}
use address_verification.Sssa.Field.{default_prime, evaluate_polynomial}
use address_verification.Sssa.Field.Horner.{evaluate_polynomial-value}
use address_verification.Sssa.Draw.{Draw, drawn, draw_until, random_in_limit, max_polynomial}
use address_verification.Sssa.Draw.Enough.{fresh_count, draw_coefficient, draw_coordinate}
use address_verification.Sssa.Create.{
  Created, Numbered, coefficients, polynomial_of, polynomials, make_share, make_shares, pointer_at,
  pointers, share_out, create_from_int,
}

-- A result, after which `more` numbers still count.
abbrev Leaves : {A : Type 0} → ℕ → (Numbered A → Type 0) → Draw (Numbered A) → Type 0
Leaves {A} more P result =
    (out : Numbered A) × (rest : List ℕ) × (result ≡ drawn out rest)
    × P out
    × (more ≤ fresh_count out.1 rest)

coefficients-Leaves :
    (count more : ℕ) (numbers draws : List ℕ)
    → count + more ≤ fresh_count numbers draws
    → Leaves more (λ out. length out.0 ≡ count) (coefficients count numbers draws)
unfolding coefficients
coefficients-Leaves zero more numbers draws h = (([], numbers), draws, refl, refl, omega arith)
coefficients-Leaves (suc count) more numbers draws h =
    let (d, mid, found, left) = draw_coefficient numbers draws (omega arith) in
    let (out, rest, others, size, still) =
      coefficients-Leaves count more (numbers ++ d ∷ []) mid (omega (arith, left)) in
    ((d ∷ out.0, out.1), rest, rw (found, others, coefficients) refl, ap suc size, still)

module _ (c : ℕ) (cs : List ℕ) (small : c < default_prime) where
  values : (x : ℕ) → (y : ℕ) × (evaluate_polynomial default_prime (c ∷ cs) x ≡ some y)
  values x = let (r, e, _, _) = evaluate_polynomial-value (omega arith) c cs x small in (r, e)

  make_share-Leaves :
      (more : ℕ) (numbers draws : List ℕ)
      → suc more ≤ fresh_count numbers draws
      → Leaves more (λ out. Unit) (make_share ((c ∷ cs) ∷ []) numbers draws)
  unfolding make_share
  make_share-Leaves more numbers draws h =
      let (d, mid, found, left) = draw_coordinate numbers draws (omega arith) in
      let (y, e) = values d in
      (
        (to_base64 (pos d) ++ to_base64 (pos y) ++ [], numbers ++ d ∷ []),
        mid,
        rw (found, e, make_share) refl,
        tt,
        omega (arith, left),
      )

  make_shares-Leaves :
      (count : ℕ) (numbers draws : List ℕ)
      → count ≤ fresh_count numbers draws
      → Leaves 0 (λ out. length out.0 ≡ count) (make_shares count ((c ∷ cs) ∷ []) numbers draws)
  unfolding make_shares
  make_shares-Leaves zero numbers draws h = (([], numbers), draws, refl, refl, omega arith)
  make_shares-Leaves (suc count) numbers draws h =
      let (share, mid, made, _, left) = make_share-Leaves count numbers draws h in
      let (out, rest, others, size, still) = make_shares-Leaves count share.1 mid left in
      ((share.0 ∷ out.0, out.1), rest, rw (made, others, make_shares) refl, ap suc size, still)

  pointers-some :
      (count index : ℕ)
      → (ys : List ℕ) × (pointers count index ((c ∷ cs) ∷ []) ≡ some ys) × (length ys ≡ count)
  unfolding pointers pointer_at
  pointers-some zero index = ([], refl, refl)
  pointers-some (suc count) index =
      let (y, e) = values index in
      let (ys, es, size) = pointers-some count (index + 1) in
      (y ∷ ys, rw (e, es, pointers) refl, ap suc size)

-- What is drawn is shared out.
share_out-drawn :
    (degree shares secret : ℕ) (draws : List ℕ)
    → secret < default_prime
    → degree + shares ≤ fresh_count (0 ∷ []) draws
    → (made : Created) × (rest : List ℕ) × (share_out (suc degree) shares (secret ∷ []) draws
        ≡ drawn made rest)
      × (length made.shares ≡ shares)
      × (length made.pointer ≡ shares)
      × (length made.polynomial ≡ suc degree)
unfolding share_out polynomials polynomial_of
share_out-drawn degree shares secret draws small h =
    let (cs, mid, found, degrees, left) = coefficients-Leaves degree shares (0 ∷ []) draws h in
    let (result, rest, made, size, _) = make_shares-Leaves secret cs.0 small shares cs.1 mid left in
    let (pointer, pointed, count) = pointers-some secret cs.0 small shares 1 in
    (
      record { shares = result.0; pointer = pointer; polynomial = secret ∷ cs.0 },
      rest,
      rw (found, made, pointed, share_out, polynomials, polynomial_of) refl,
      size,
      count,
      ap suc degrees,
    )

-- A call of `CreateFromInt` for at least as many shares as coefficients, of which there is one or
-- more, ends with that many shares, values and coefficients, when the first number drawn is within
-- the limit, and among the numbers drawn after it there are, for the coefficients behind the constant
-- term and the shares, as many different ones within the limit that are not 0.
pub create_from_int-drawn :
    (degree shares secret : ℕ) (draws : List ℕ)
    → suc degree ≤ shares
    → secret ≤ max_polynomial
    → degree + shares ≤ fresh_count (0 ∷ []) draws
    → (made : Created) × (rest : List ℕ) × (create_from_int (suc degree) shares (secret ∷ draws)
        ≡ drawn made rest)
      × (length made.shares ≡ shares)
      × (length made.pointer ≡ shares)
      × (length made.polynomial ≡ suc degree)
unfolding create_from_int random_in_limit draw_until
create_from_int-drawn degree shares secret draws enough limit h =
    let asked : ltb shares (suc degree) ≡ false = ground arith in
    let taken : not (ltb max_polynomial secret) ≡ true = ground arith in
    let (made, rest, done, size, count, degrees) =
      share_out-drawn degree shares secret draws (omega arith) h in
    (made, rest, rw (asked, taken, create_from_int) done, size, count, degrees)
