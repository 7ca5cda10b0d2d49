-- ===== src/Sssa/Combine/Interpolation.antt =====
-- The interpolation of `Combine` recovers the constant of the polynomial.
use address_verification.Base.{
  ℕ, suc, ◌+◌, ◌*◌, ◌<◌, ◌≤◌, ◌≡◌, refl, sym, ap, ◌∙◌, List, [], ◌∷◌, ◌++◌, map, some, arith,
  length, length-append, All, append_assoc,
}
use address_verification.Base.Int.{ℤ, pos, ◌*ℤ◌, emod, *ℤ_parts}
use address_verification.Base.Mod.{
  Cong, ◌⨾◌, Cong-refl, Cong-of_eq, Cong-+, Cong-*, Cong-mod, Cong-small,
}
use address_verification.Base.Residues.{IsUnit, sub_mod}
use address_verification.Base.Euclid.{emod-Cong_of}
use address_verification.Sssa.Field.{evaluate_polynomial}
use address_verification.Sssa.Field.Inverse.{mod_inverse-inverts}
use address_verification.Sssa.Field.Horner.{evaluate_polynomial-value}
use address_verification.Sssa.Lagrange.{
  value, Apart, weight, ratio, lagrange, lagrange_ext, lagrange-value,
}
use address_verification.Sssa.Combine.{Point, product_loop, sum_loop, interpolate, abscissae}
use address_verification.Sssa.Combine.Loops.{inv, product_loop-weight}
use mathlib.Core.Path.{subst}
use native.Mathlib.Nat.{mod-lt}

-- A pair of numbers as the pair of integers that a share decodes to.
abbrev pub to_point : ℕ × ℕ → Point
to_point (x, y) = (pos x, pos y)

abbrev pub xs_of : List (ℕ × ℕ) → List ℕ
xs_of [] = []
xs_of (point ∷ points) = point.0 ∷ xs_of points

abscissae-to_point :
    (points : List (ℕ × ℕ)) → abscissae (map to_point points) ≡ map pos (xs_of points)
abscissae-to_point [] = refl
abscissae-to_point ((x, y) ∷ points) = ap (λ l. pos x ∷ l) (abscissae-to_point points)

some_inj : {a b : ℕ} → some a ≡ some b → a ≡ b
some_inj h = cc

All_at {ℓ} : (P : ℕ → Type ℓ) (xs : List ℕ) (x : ℕ) (ys : List ℕ) → All P (xs ++ x ∷ ys) → P x
All_at P [] x ys h = h.0
All_at P (z ∷ xs) x ys h = All_at P xs x ys h.1

-- A point differs by a unit from all points around it.
Apart-around :
    (p : ℕ) (xs : List ℕ) (x : ℕ) (ys : List ℕ)
    → Apart p (xs ++ x ∷ ys)
    → All (λ y. IsUnit p (sub_mod p x y)) (xs ++ ys)
Apart-around p [] x ys h = ahead ys h.0
  where
    ahead :
        (zs : List ℕ)
        → All (λ y. IsUnit p (sub_mod p x y) × IsUnit p (sub_mod p y x)) zs
        → All (λ y. IsUnit p (sub_mod p x y)) zs
    ahead [] _ = tt
    ahead (z ∷ zs) (k, ks) = (k.0, ahead zs ks)
Apart-around p (z ∷ xs) x ys (h, hs) = (
  (All_at (λ y. IsUnit p (sub_mod p z y) × IsUnit p (sub_mod p y z)) xs x ys h).1,
  Apart-around p xs x ys hs,
)

module _ {p : ℕ} (p_pos : 0 < p) where
  weight-append :
      (x : ℕ) (xs ys : List ℕ)
      → weight p_pos (inv p_pos) x (xs ++ ys)
        ≡ weight p_pos (inv p_pos) x xs * weight p_pos (inv p_pos) x ys
  weight-append x [] ys = omega arith
  weight-append x (z ∷ xs) ys =
      omega (arith, ap (λ (t : ℕ). ratio p_pos (inv p_pos) x z * t) (weight-append x xs ys))

  -- A working value is the product of its three factors.
  pub working_lem : (y n v : ℕ) → Cong p (emod (pos y *ℤ pos n *ℤ pos v) p) (y * (n * v))
  working_lem y n v =
      Cong-of_eq {b = emod (pos y *ℤ pos n *ℤ pos v) p + 0} (omega arith)
      ⨾ emod-Cong_of p_pos (pos y *ℤ pos n *ℤ pos v) (y * (n * v)) 0 (
          omega (
            arith,
            *ℤ_parts (pos y *ℤ pos n) (pos v),
            ap (λ (t : ℕ). t * v) (*ℤ_parts (pos y) (pos n)),
          ))

  sum_loop-lt :
      (xs : List ℤ) (i : ℕ) (points : List Point) (s : ℕ) → s < p → sum_loop p xs i points s < p
  unfolding sum_loop
  sum_loop-lt xs i [] s h = h
  sum_loop-lt xs i (point ∷ points) s h = sum_loop-lt xs (i + 1) points _ (mod-lt _ p_pos)

  point_weight :
      (x : ℕ) (before ys all : List ℕ) (i : ℕ)
      → all ≡ before ++ x ∷ ys
      → i ≡ length before
      → Apart p all
      → let (num, den) = product_loop p (pos x) i 0 (map pos all) (1, 1) in
        Cong p (num * inv p_pos den) (weight p_pos (inv p_pos) x (before ++ ys))
  point_weight x before ys all i e h apart =
      rw (e, h)
        (product_loop-weight p_pos x before ys
          (Apart-around p before x ys (subst (Apart p) e apart)))

  pub interpolate-lt : (points : List Point) → interpolate p points < p
  unfolding interpolate
  interpolate-lt points = sum_loop-lt (abscissae points) 0 points 0 p_pos

  module _ (cs : List ℕ) where
    abbrev OnCurve : ℕ × ℕ → Type 0
    OnCurve (x, y) = Cong p y (value cs x)

    abbrev weighted : List ℕ → ℕ → ℕ
    weighted before t = value cs t * weight p_pos (inv p_pos) t before

    sum_loop-lagrange :
        (points : List (ℕ × ℕ)) (before all : List ℕ) (i s : ℕ)
        → all ≡ before ++ xs_of points
        → i ≡ length before
        → Apart p all
        → All OnCurve points
        → Cong p
            (sum_loop p (map pos all) i (map to_point points) s)
            (s + lagrange p_pos (inv p_pos) (weighted before) (xs_of points))
    unfolding sum_loop
    sum_loop-lagrange [] before all i s e h apart on = Cong-of_eq (omega arith)
    sum_loop-lagrange ((x, y) ∷ points) before all i s e h apart (curve, on) =
        sum_loop-lagrange points (before ++ x ∷ []) all (i + 1) _
          (e ∙ sym (append_assoc before (x ∷ []) (xs_of points)))
          (omega (arith, h, length-append before (x ∷ []))) apart on
        ⨾ Cong-+
            (Cong-mod _
              ⨾ Cong-+ (Cong-refl s) (
                  working_lem y _ _
                  ⨾ Cong-* curve (point_weight x before (xs_of points) all i e h apart)))
            (Cong-refl _)
        ⨾ Cong-of_eq (
            omega (
              arith,
              ap (λ (t : ℕ). value cs x * t) (weight-append x before (xs_of points)),
              lagrange_ext p_pos (inv p_pos) (weighted (before ++ x ∷ []))
                  (λ t. weighted before t * ratio p_pos (inv p_pos) t x) (xs_of points)
                  (λ t.
                    omega
                      (arith, ap (λ (u : ℕ). value cs t * u) (weight-append t before (x ∷ [])))),
            ))

    -- The points of a polynomial with no more coefficients than points give its constant back.
    pub sum_loop-value :
        (points : List (ℕ × ℕ))
        → length cs ≤ length (xs_of points)
        → Apart p (xs_of points)
        → All OnCurve points
        → Cong p (interpolate p (map to_point points)) (value cs 0)
    unfolding interpolate
    sum_loop-value points size apart on = rw (abscissae-to_point points) (
        sum_loop-lagrange points [] (xs_of points) 0 0 refl refl apart on
        ⨾ Cong-of_eq (
            omega (
              arith,
              lagrange_ext p_pos (inv p_pos) (weighted []) (value cs) (xs_of points)
                  (λ t. omega arith),
            ))
        ⨾ lagrange-value p_pos (inv p_pos) (λ a. mod_inverse-inverts p a p_pos) cs (xs_of points)
            size apart)

-- Points whose coordinates `evaluatePolynomial` computed, at least as many as the polynomial has
-- coefficients, with first coordinates that differ by units modulo the prime, are interpolated to
-- the polynomial's constant term.
pub interpolate-evaluate_polynomial :
    {p : ℕ} (c : ℕ) (cs : List ℕ) (points : List (ℕ × ℕ))
    → c < p
    → suc (length cs) ≤ length (xs_of points)
    → Apart p (xs_of points)
    → All (λ point. evaluate_polynomial p (c ∷ cs) point.0 ≡ some point.1) points
    → interpolate p (map to_point points) ≡ c
interpolate-evaluate_polynomial {p} c cs points small size apart on =
    Cong-small below small
      (sum_loop-value p_pos (c ∷ cs) points size apart (curve points on) ⨾ Cong-of_eq (omega arith))
  where
    p_pos : 0 < p
    p_pos = omega arith

    below : interpolate p (map to_point points) < p
    below = interpolate-lt p_pos (map to_point points)

    curve :
        (ps : List (ℕ × ℕ))
        → All (λ point. evaluate_polynomial p (c ∷ cs) point.0 ≡ some point.1) ps
        → All (OnCurve p_pos (c ∷ cs)) ps
    curve [] _ = tt
    curve ((x, y) ∷ ps) (k, ks) =
        let (r, e, same, _) = evaluate_polynomial-value p_pos c cs x small in
        (Cong-of_eq (some_inj (sym k ∙ e)) ⨾ same, curve ps ks)
