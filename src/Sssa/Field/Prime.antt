-- ===== src/Sssa/Field/Prime.antt =====
-- Primes: the numbers modulo which all others are units. `DefaultPrimeStr` of sssa/sssa.go is shown to
-- be one by certificates below.
use native.Mathlib.Nat.{
  le_of_dvd, dvd_trans, dvd-mul_left, dvd-mul_right, dvd-mul_left_of_dvd, dvd-mul_right_of_dvd,
  div-mul_cancel, dvd-add_iff_right, dvd-add_iff_left, dvd_iff_mod-eq-zero, mod-eq_of_lt,
  pos_of_dvd_of_pos, mul-le-mul, div-add-mod,
}
use mathlib.Core.Path.{subst}
pub mod Power
pub mod Pigeonhole
pub mod Pocklington
pub mod Certificate
use address_verification.Base.{
  ℕ, zero, suc, ◌+◌, ◌-◌, ◌*◌, ◌/◌, ◌%◌, ◌<◌, ◌≤◌, ◌≡◌, ◌≢◌, refl, sym, ap, ◌∙◌, inl, inr, arith,
  ◌∣◌, Bool, true, false, Bool-cases, ◌==◌, ==_iff, ltb, if◌then◌else◌, not, ◌&&◌,
}
use address_verification.Base.Int.{pos, emod, ◌+ℤ◌}
use address_verification.Base.Mod.{Cong, Cong-mod, Cong-of_eq, ◌⨾◌, multiples-Cong}
use address_verification.Base.Residues.{IsUnit, IsUnit-Cong}
use address_verification.Sssa.Field.{gcd_ext}
use address_verification.Sssa.Field.Inverse.{gcd_ext-dvd, gcd_ext-Bezout, coefficient_inverts}

pub record IsPrime (p : ℕ) : Type 0 where
  pub one_lt : 1 < p
  pub unit : (a : ℕ) → 0 < a → a < p → IsUnit p a

-- What is not a multiple of a prime is a unit.
pub IsPrime-IsUnit : {p : ℕ} → IsPrime p → (a : ℕ) → a % p ≢ 0 → IsUnit p a
IsPrime-IsUnit {p} prime a h =
    IsUnit-Cong (Cong-mod a) (prime.unit (a % p) (positive (a % p) h) (below prime.one_lt))
  where
    positive : (t : ℕ) → t ≢ 0 → 0 < t
    positive zero k = absurd (k refl)
    positive (suc t) k = omega arith

    below : 1 < p → a % p < p
    below k = omega arith

-- The two factors of a number that is less than the square are not both as large as the root.
factors_lt : (p b g h : ℕ) → p < b * b → p ≡ h * g → b ≤ g → b ≤ h → ⊥
factors_lt p b g h small e hg hh = omega (arith, mul-le-mul hh hg)

quotient_gt : (h g p : ℕ) → p ≡ h * g → g < p → 1 < h
quotient_gt zero g p e k = absurd (omega arith)
quotient_gt (suc zero) g p e k = absurd (omega arith)
quotient_gt (suc (suc h)) g p e k = omega arith

-- A number is a prime if its divisors but 1 are at least as large as its root.
pub IsPrime-of_divisors :
    (p b : ℕ) → 1 < p → p < b * b → ((r : ℕ) → r ∣ p → 1 < r → b ≤ r) → IsPrime p
IsPrime-of_divisors p b one_lt small large = record {
  one_lt = one_lt;
  unit = λ a a_pos a_lt.
      let (divides_p, divides_a) = gcd_ext-dvd (suc a) p a (omega arith) in
      elim (Bool-cases ((gcd_ext (suc a) p a).0 == 1)) [
        | inl one ↦ record {
          inverse = emod (pos p +ℤ (gcd_ext (suc a) p a).2) p;
          inverts =
              coefficient_inverts p a (gcd_ext (suc a) p a) (omega arith)
                (gcd_ext-Bezout (suc a) p a (omega arith)) ((==_iff _ 1).0 one);
        }
        | inr more ↦ absurd (
            no_divisor (gcd_ext (suc a) p a).0 divides_p
              (above _ (pos_of_dvd_of_pos divides_a a_pos) more)
              (at_most (le_of_dvd a_pos divides_a) a_lt))
      ];
}
  where
    above : (g : ℕ) → 0 < g → (g == 1) ≡ false → 1 < g
    above g h e = ground arith

    at_most : {g a : ℕ} → g ≤ a → a < p → g < p
    at_most h k = omega arith

    no_divisor : (g : ℕ) → g ∣ p → 1 < g → g < p → ⊥
    no_divisor g d g_gt g_lt =
        let e : p / g * g ≡ p = div-mul_cancel g d in
        factors_lt p b g (p / g) small (sym e) (large g d g_gt) (
          large (p / g) (subst (λ (t : ℕ). p / g ∣ t) e (dvd-mul_right (p / g) g))
            (quotient_gt (p / g) g p (sym e) g_lt))

-- Whether one of the numbers d, d + 1, … divides p, `count` of them.
unfoldable pub has_divisor : ℕ → ℕ → ℕ → Bool
has_divisor zero d p = false
has_divisor (suc count) d p =
    let rest = has_divisor count (d + 1) p in if p % d == 0 then true else rest

no_divisor_step :
    (count d p : ℕ)
    → has_divisor (suc count) d p ≡ false
    → (p % d ≢ 0) × (has_divisor count (d + 1) p ≡ false)
unfolding has_divisor
no_divisor_step count d p h = ground arith

next_divisor : (p d r : ℕ) → p % d ≢ 0 → p % r ≡ 0 → d ≤ r → d + 1 ≤ r
next_divisor p d r h k l = elim (Bool-cases (r == d)) [
  | inl e ↦ absurd (h (ap (λ (t : ℕ). p % t) (sym ((==_iff r d).0 e)) ∙ k))
  | inr e ↦ ground arith
]

has_divisor-false :
    (count d p : ℕ) → has_divisor count d p ≡ false → (r : ℕ) → r ∣ p → d ≤ r → d + count ≤ r
has_divisor-false zero d p h r k l = omega arith
has_divisor-false (suc count) d p h r k l =
    let (other, rest) = no_divisor_step count d p h in
    let above = next_divisor p d r other ((dvd_iff_mod-eq-zero r).0 k) l in
    omega (arith, has_divisor-false count (d + 1) p rest r k above)

-- Trial division.
pub IsPrime-by_trial :
    (p count : ℕ)
    → 1 < p
    → p < (2 + count) * (2 + count)
    → has_divisor count 2 p ≡ false
    → IsPrime p
IsPrime-by_trial p count one_lt small h =
    IsPrime-of_divisors p (2 + count) one_lt small
      (λ r d r_gt. has_divisor-false count 2 p h r d r_gt)
