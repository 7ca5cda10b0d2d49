-- ===== src/Sssa/Field/Inverse.antt =====
-- `modInverse` finds the inverse of every number that has one.
use address_verification.Base.{
  ℕ, zero, suc, ◌+◌, ◌*◌, ◌/◌, ◌%◌, ◌<◌, ◌≡◌, ap, inl, inr, arith, ◌∣◌, Bool-cases, ◌==◌, ==_iff,
}
use address_verification.Base.Int.{
  ℤ, pos, pos_part, neg_part, ◌+ℤ◌, ◌-ℤ◌, ◌*ℤ◌, emod, -ℤ_parts, *ℤ_parts,
}
use address_verification.Base.Mod.{
  Cong, ◌⨾◌, Cong-mod, Cong-multiples, multiples-Cong, Cong-refl, Cong-of_eq, Cong-symm, Cong-*,
  Cong-+_cancel,
}
use address_verification.Base.Residues.{IsUnit, IsUnit-Cong}
use address_verification.Base.Euclid.{emod-lt, emod-+}
use address_verification.Sssa.Field.{gcd_ext, mod_inverse}
use mathlib.Core.Path.{subst}
use native.Mathlib.Nat.{
  mod-lt, div-add-mod, dvd_refl, dvd-zero, dvd-mod_iff, dvd-add, dvd-mul_right_of_dvd,
  dvd-add_iff_left, eq-one_of_dvd-one,
}

-- The result divides both numbers.
pub gcd_ext-dvd : (f a b : ℕ) → b < f → ((gcd_ext f a b).0 ∣ a) × ((gcd_ext f a b).0 ∣ b)
unfolding gcd_ext
gcd_ext-dvd zero a b h = absurd (omega arith)
gcd_ext-dvd (suc f) a b h = elim (Bool-cases (b == 0)) [
  | inl z ↦ rw z (dvd_refl a, rw ((==_iff b 0).0 z) (dvd-zero a))
  | inr nz ↦ rw nz (back (gcd_ext-dvd f b (a % b) (ground (arith, mod-lt a {m = b}))))
]
  where
    back :
        ((gcd_ext f b (a % b)).0 ∣ b) × ((gcd_ext f b (a % b)).0 ∣ a % b)
        → ((gcd_ext f b (a % b)).0 ∣ a) × ((gcd_ext f b (a % b)).0 ∣ b)
    back (db, dr) = ((dvd-mod_iff _ db).0 dr, db)

pub Bezout : ℕ → ℕ → ℕ × ℤ × ℤ → Type 0
Bezout a b (g, x, y) = a * pos_part x + b * pos_part y ≡ g + a * neg_part x + b * neg_part y

-- The coefficients combine the numbers to the result.
pub gcd_ext-Bezout : (f a b : ℕ) → b < f → Bezout a b (gcd_ext f a b)
unfolding gcd_ext Bezout
gcd_ext-Bezout zero a b h = absurd (omega arith)
gcd_ext-Bezout (suc f) a b h = elim (Bool-cases (b == 0)) [
  | inl z ↦ rw z (omega arith)
  | inr nz ↦
      rw nz
        (back (gcd_ext f b (a % b)) (gcd_ext-Bezout f b (a % b) (ground (arith, mod-lt a {m = b}))))
]
  where
    back : (r : ℕ × ℤ × ℤ) → Bezout b (a % b) r → Bezout a b (r.0, r.2, r.1 -ℤ pos (a / b) *ℤ r.2)
    back (g, x, y) e = omega (
      arith,
      e,
      ap (λ (t : ℕ). b * t) (-ℤ_parts x (pos (a / b) *ℤ y)),
      ap (λ (t : ℕ). b * t) (*ℤ_parts (pos (a / b)) y),
      ap (λ (t : ℕ). t * pos_part y) (div-add-mod a b),
      ap (λ (t : ℕ). t * neg_part y) (div-add-mod a b),
    )

-- A divisor of the modulus and of a unit is 1.
divides_unit : (p a g : ℕ) → IsUnit p a → g ∣ p → g ∣ a → g ≡ 1
divides_unit p a g u dp da = eq-one_of_dvd-one (
    (dvd-add_iff_left g (dvd-mul_right_of_dvd g dp (a * u.inverse / p))).1 (
      subst (λ (t : ℕ). g ∣ t) (multiples-Cong u.inverts)
        (dvd-add g (dvd-mul_right_of_dvd g da u.inverse) (dvd-mul_right_of_dvd g dp (1 / p)))))

-- The normalised second coefficient inverts `c` if the divisor is 1.
pub coefficient_inverts :
    (p c : ℕ) (r : ℕ × ℤ × ℤ)
    → 0 < p
    → Bezout p c r
    → r.0 ≡ 1
    → Cong p (c * emod (pos p +ℤ r.2) p) 1
unfolding Bezout
coefficient_inverts p c (g, x, y) p_pos bezout one = Cong-+_cancel (c * neg_part y) (
    Cong-of_eq (omega arith)
    ⨾ Cong-* (Cong-refl c) (emod-+ p_pos p 0 y)
    ⨾ Cong-multiples _ _ (pos_part x) (neg_part x + c) (omega (arith, bezout, one)))

-- If a number has an inverse modulo the prime, `modInverse` returns an inverse.
pub mod_inverse-inverts : (p a : ℕ) → 0 < p → IsUnit p a → Cong p (a * mod_inverse p (pos a)) 1
unfolding mod_inverse
mod_inverse-inverts p a p_pos u =
    Cong-* (Cong-symm (Cong-mod a)) (Cong-refl _)
    ⨾ coefficient_inverts p (a % p) (gcd_ext (suc (a % p)) p (a % p)) p_pos
        (gcd_ext-Bezout (suc (a % p)) p (a % p) (omega arith))
        (divides_unit p (a % p) _ (IsUnit-Cong (Cong-symm (Cong-mod a)) u) both.0 both.1)
  where
    both : ((gcd_ext (suc (a % p)) p (a % p)).0 ∣ p) × ((gcd_ext (suc (a % p)) p (a % p)).0 ∣ a % p)
    both = gcd_ext-dvd (suc (a % p)) p (a % p) (omega arith)

-- The result is a residue.
pub mod_inverse-lt : (p : ℕ) (a : ℤ) → 0 < p → mod_inverse p a < p
unfolding mod_inverse
mod_inverse-lt p a p_pos = emod-lt p_pos _
