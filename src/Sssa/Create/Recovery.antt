-- ===== src/Sssa/Create/Recovery.antt =====
-- `Combine` on some of the shares of a call of `CreateFromInt`.
use address_verification.Base.{
  ◌<◌, ◌≢◌, ℕ, suc, ◌≤◌, ◌≡◌, refl, sym, ap, ◌∙◌, List, [], ◌∷◌, map, arith, length, All, take,
  Bytes, Bool, true, false,
}
use address_verification.Base.Int.{pos_part}
use address_verification.Base.Outcome.{ok}
use address_verification.Sssa.Field.{default_prime}
use address_verification.Sssa.Base64.{from_base64}
use address_verification.Sssa.Hex.Digits.{big_endian}
use address_verification.Sssa.Text.{trim_right}
use address_verification.Sssa.Draw.{drawn}
use address_verification.Sssa.Draw.Post.{IsDrawn}
use address_verification.Sssa.Combine.{combine}
use address_verification.Sssa.Combine.Interpolation.{xs_of}
use address_verification.Sssa.Combine.Recovery.{print_share, IsResidue, x_read, combine-print_share}
use address_verification.Sssa.Create.{Created, create_from_int}
use address_verification.Sssa.Create.Distinct.{
  Distinct, AreFresh-ne, AreFresh-Distinct, Distinct-Apart,
}
use address_verification.Sssa.Create.Shares.{OnPolynomial, create_from_int-IsSharing}
use mathlib.Core.Path.{subst}

-- Some of the elements of a list: those that are marked.
module _ {ℓ} {A : Type ℓ} where
  abbrev pub select : List Bool → List A → List A
  select [] xs = []
  select (b ∷ keep) [] = []
  select (true ∷ keep) (x ∷ xs) = x ∷ select keep xs
  select (false ∷ keep) (x ∷ xs) = select keep xs

  All-select {κ} :
      (P : A → Type κ) (keep : List Bool) (xs : List A) → All P xs → All P (select keep xs)
  All-select P [] xs h = tt
  All-select P (b ∷ keep) [] h = tt
  All-select P (true ∷ keep) (x ∷ xs) (h, hs) = (h, All-select P keep xs hs)
  All-select P (false ∷ keep) (x ∷ xs) (h, hs) = All-select P keep xs hs

select-map :
    (keep : List Bool) (points : List (ℕ × ℕ))
    → select keep (map print_share points) ≡ map print_share (select keep points)
select-map [] points = refl
select-map (b ∷ keep) [] = refl
select-map (true ∷ keep) (point ∷ points) = ap (λ l. print_share point ∷ l) (select-map keep points)
select-map (false ∷ keep) (point ∷ points) = select-map keep points

-- The x-coordinate that a share begins with.
abbrev pub abscissa : Bytes → ℕ
abscissa share = pos_part (from_base64 (take 44 share))

pub xs_of-abscissa :
    (points : List (ℕ × ℕ))
    → All IsResidue points
    → map abscissa (map print_share points) ≡ xs_of points
xs_of-abscissa [] _ = refl
xs_of-abscissa ((x, y) ∷ points) ((hx, hy), h) =
    λ i. pos_part (x_read x y hx hy i) ∷ xs_of-abscissa points h i

length-map_print : (points : List (ℕ × ℕ)) → length (map print_share points) ≡ length (xs_of points)
length-map_print [] = refl
length-map_print (point ∷ points) = ap suc (length-map_print points)

All-abscissae :
    (points : List (ℕ × ℕ)) → All IsResidue points → All (λ x. x < default_prime) (xs_of points)
All-abscissae [] _ = tt
All-abscissae ((x, y) ∷ points) ((hx, _), h) = (hx, All-abscissae points h)

xs_of-select :
    (keep : List Bool) (points : List (ℕ × ℕ))
    → xs_of (select keep points) ≡ select keep (xs_of points)
xs_of-select [] points = refl
xs_of-select (b ∷ keep) [] = refl
xs_of-select (true ∷ keep) (point ∷ points) = ap (λ l. point.0 ∷ l) (xs_of-select keep points)
xs_of-select (false ∷ keep) (point ∷ points) = xs_of-select keep points

Distinct-select : (keep : List Bool) (xs : List ℕ) → Distinct xs → Distinct (select keep xs)
Distinct-select [] xs h = tt
Distinct-select (b ∷ keep) [] h = tt
Distinct-select (true ∷ keep) (x ∷ xs) (h, hs) =
    (All-select (λ y. x ≢ y) keep xs h, Distinct-select keep xs hs)
Distinct-select (false ∷ keep) (x ∷ xs) (h, hs) = Distinct-select keep xs hs

-- The coordinates of the shares of a successful `CreateFromInt` are not 0, where the polynomial has
-- the secret as its value, and no two of them are the same.
pub create_from_int-Distinct :
    (minimum shares : ℕ) (draws : List ℕ) {made : Created} {rest : List ℕ}
    → All IsDrawn draws
    → create_from_int minimum shares draws ≡ drawn made rest
    → Distinct (0 ∷ map abscissa made.shares)
create_from_int-Distinct minimum shares draws h e =
    let sharing = create_from_int-IsSharing minimum shares draws h e in
    let (points, printed, count, residues, on, fresh) = sharing.sharing in
    subst (λ l. Distinct (0 ∷ l)) (sym (ap (map abscissa) printed ∙ xs_of-abscissa points residues))
      (
        AreFresh-ne [] sharing.used 0 (xs_of points) fresh,
        AreFresh-Distinct (0 ∷ sharing.used) (xs_of points) fresh,
      )

-- Any `minimum` or more of the shares of a successful `CreateFromInt` are combined without an error
-- to 32 bytes less the zero bytes at their end, and the 32 bytes are the constant term of the
-- returned polynomial.
pub combine-create_from_int :
    (minimum shares : ℕ) (draws : List ℕ) {made : Created} {rest : List ℕ} (keep : List Bool)
    → All IsDrawn draws
    → create_from_int minimum shares draws ≡ drawn made rest
    → minimum ≤ length (select keep made.shares)
    → (bs : Bytes) × (cs : List ℕ) × (combine (select keep made.shares) ≡ ok (trim_right bs))
      × (length bs ≡ 32)
      × (made.polynomial ≡ big_endian bs 0 ∷ cs)
combine-create_from_int minimum shares draws {made} keep h e size =
    let sharing = create_from_int-IsSharing minimum shares draws h e in
    let (points, printed, count, residues, on, fresh) = sharing.sharing in
    let chosen = select keep points in
    let chosen_residues = All-select IsResidue keep points residues in
    let same : select keep made.shares ≡ map print_share chosen =
      ap (select keep) printed ∙ select-map keep points in
    let distinct : Distinct (xs_of chosen) = subst Distinct (sym (xs_of-select keep points)) (
      Distinct-select keep (xs_of points)
        (AreFresh-Distinct (0 ∷ sharing.used) (xs_of points) fresh)) in
    let (bs, combined, width, value) =
      combine-print_share sharing.secret sharing.coefs chosen sharing.small
        (omega (arith, size, sharing.degree, ap length same, length-map_print chosen))
        (Distinct-Apart (xs_of chosen) (All-abscissae chosen chosen_residues) distinct)
        chosen_residues
        (All-select (OnPolynomial sharing.secret sharing.coefs sharing.small) keep points on) in
    (
      bs,
      sharing.coefs,
      ap combine same ∙ combined,
      width,
      sharing.polynomial_lem ∙ ap (λ (t : ℕ). t ∷ sharing.coefs) (sym value),
    )
