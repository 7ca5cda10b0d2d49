-- ===== src/Sssa/Pubs/Multiples.antt =====
-- `CombineECDSAPubs` on multiples of a point.
use address_verification.Base.{
  ℕ, suc, ◌+◌, ◌*◌, ◌%◌, ◌<◌, ◌≤◌, ◌≡◌, ap, ◌∙◌, List, [], ◌∷◌, some, arith, length,
}
use address_verification.Base.Int.{ℤ, pos, ◌*ℤ◌, emod}
use address_verification.Base.Mod.{
  Cong, ◌⨾◌, Cong-mod, Cong-refl, Cong-symm, Cong-+, Cong-*, Cong-of_eq,
}
use address_verification.Base.Outcome.{ok}
use address_verification.Sssa.Lagrange.{Apart}
use address_verification.Sssa.Field.{evaluate_polynomial}
use address_verification.Sssa.Combine.{interpolate, sum_loop}
use address_verification.Sssa.Combine.Interpolation.{
  to_point, working_lem, interpolate-evaluate_polynomial,
}
use address_verification.Sssa.Pubs.{Curve, Triple, pub_weight, secret_pubs, add_pubs}

-- The multiples of a point under the calls of the curve, where the order of the point is `p`.
pub record IsMultiples {P : Type 0} (p : ℕ) (curve : Curve P) (times : ℕ → P) (coords : ℕ → ℤ × ℤ)
    : Type 0 where
  pub scalar_mult : (k w : ℕ) → curve.scalar_mult (coords k).0 (coords k).1 w ≡ some (times (k * w))
  pub add : (a b : ℕ) → curve.add (times a) (times b) ≡ times (a + b)
  pub order : (a b : ℕ) → Cong p a b → times a ≡ times b

abbrev pub to_triple : (ℕ → ℤ × ℤ) → ℕ × ℕ → Triple
to_triple coords (x, k) = (pos x, (coords k).0, (coords k).1)

module _ {P : Type 0} {p : ℕ} (p_pos : 0 < p) (curve : Curve P) (times : ℕ → P) (coords : ℕ → ℤ × ℤ)
    (multiples : IsMultiples p curve times coords) where
  -- The value times the scalar is what `Combine` adds for the point.
  term_lem : (k n v : ℕ) → Cong p (k * (n * v % p)) (emod (pos k *ℤ pos n *ℤ pos v) p)
  term_lem k n v = Cong-* (Cong-refl k) (Cong-mod (n * v)) ⨾ Cong-symm (working_lem p_pos k n v)

  sum_lem :
      (k n v l m w : ℕ)
      → times (k * (n * v % p) + l * (m * w % p))
        ≡ times
            (((0 + emod (pos k *ℤ pos n *ℤ pos v) p) % p + emod (pos l *ℤ pos m *ℤ pos w) p) % p)
  sum_lem k n v l m w = multiples.order _ _ (
      Cong-+ (term_lem k n v) (term_lem l m w)
      ⨾ Cong-symm (Cong-mod _ ⨾ Cong-+ (Cong-mod _ ⨾ Cong-of_eq (omega arith)) (Cong-refl _)))

  -- Two shares add up to the multiple that `Combine` interpolates.
  add_pubs-interpolate :
      (x k y l : ℕ)
      → add_pubs curve (
          secret_pubs curve p
            (pos x ∷ pos y ∷ [])
            0
            (to_triple coords (x, k) ∷ to_triple coords (y, l) ∷ []))
        ≡ ok (curve.from_ecdsa_pub (times (interpolate p (to_point (x, k) ∷ to_point (y, l) ∷ []))))
  unfolding add_pubs secret_pubs pub_weight interpolate sum_loop
  add_pubs-interpolate x k y l =
      rw
        (
          multiples.scalar_mult k (pub_weight p (pos x ∷ pos y ∷ []) 0 (pos x)),
          multiples.scalar_mult l (pub_weight p (pos x ∷ pos y ∷ []) 1 (pos y)),
          secret_pubs,
          add_pubs,
        )
        (ap (λ q. ok (curve.from_ecdsa_pub q)) (multiples.add _ _ ∙ sum_lem k _ _ l _ _))

  -- Over the multiples of a point whose order is the prime, two decoded shares, multiples of the point by the values
  -- of a polynomial with one or two coefficients at coordinates that differ by a unit, add up to the
  -- constant term times the point.
  pub add_pubs-constant :
      (c : ℕ) (cs : List ℕ) (x k y l : ℕ)
      → c < p
      → suc (length cs) ≤ 2
      → Apart p (x ∷ y ∷ [])
      → evaluate_polynomial p (c ∷ cs) x ≡ some k
      → evaluate_polynomial p (c ∷ cs) y ≡ some l
      → add_pubs curve (
          secret_pubs curve p
            (pos x ∷ pos y ∷ [])
            0
            (to_triple coords (x, k) ∷ to_triple coords (y, l) ∷ []))
        ≡ ok (curve.from_ecdsa_pub (times c))
  add_pubs-constant c cs x k y l small size apart on_x on_y =
      add_pubs-interpolate x k y l
      ∙ ap (λ (t : ℕ). ok (curve.from_ecdsa_pub (times t)))
          (interpolate-evaluate_polynomial c cs ((x, k) ∷ (y, l) ∷ []) small size apart
            (on_x, (on_y, tt)))
