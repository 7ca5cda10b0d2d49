-- ===== src/Sssa/Field/Prime/Pocklington.antt =====
-- A number is a prime if there is a number whose order modulo each of its divisors is more than the
-- root: Pocklington's test.
use native.Mathlib.Nat.{
  dvd-add, le_of_dvd, eq_of_mul-eq-mul_left, dvd-mul_right, dvd-mul_right_of_dvd, div-mul_cancel,
  dvd-add_iff_left, eq-one_of_dvd-one, div-add-mod, mod-lt, pos_of_dvd_of_pos,
}
use mathlib.Core.Path.{subst}
use address_verification.Base.{
  ℕ, zero, suc, ◌+◌, ◌-◌, ◌*◌, ◌/◌, ◌%◌, ◌<◌, ◌≤◌, ◌≡◌, ◌≢◌, sym, ap, ◌∙◌, inl, inr, arith, ◌∣◌,
  List, [], ◌∷◌, All, Bool-cases, ◌==◌,
}
use address_verification.Base.Mod.{
  Cong, Cong-of_eq, Cong-refl, Cong-symm, Cong-*, Cong-+, ◌⨾◌, multiples-Cong, Cong-multiples,
  Cong-multiple, Cong-small,
}
use address_verification.Base.Residues.{IsUnit, IsUnit-cancel}
use address_verification.Sssa.Field.{gcd_ext}
use address_verification.Sssa.Field.Inverse.{gcd_ext-dvd}
use address_verification.Sssa.Field.Prime.{IsPrime, IsPrime-IsUnit, IsPrime-of_divisors}
use address_verification.Sssa.Field.Prime.Power.{power, power-+}
use address_verification.Sssa.Field.Prime.Pigeonhole.{pigeonhole}

abbrev pub product : List ℕ → ℕ
product [] = 1
product (q ∷ qs) = q * product qs

-- What holds of the product without each of its factors in turn; `k` is the product of those before.
abbrev pub Cofactors : (ℕ → Type 0) → ℕ → List ℕ → Type 0
Cofactors P k [] = Unit
Cofactors P k (q ∷ qs) = P (k * product qs) × Cofactors P (k * q) qs

-- A congruence holds modulo each divisor.
Cong-dvd : {r p a b : ℕ} → r ∣ p → Cong p a b → Cong r a b
Cong-dvd {r} {p} {a} {b} d h =
    let e : p / r * r ≡ p = div-mul_cancel r d in
    Cong-multiples a b (p / r * (b / p)) (p / r * (a / p)) (
      omega (arith, multiples-Cong h, ap (λ (t : ℕ). t * (b / p)) e, ap (λ (t : ℕ). t * (a / p)) e))

-- Euclid's lemma: what divides a multiple of a prime and has no common factor with it.
dvd_cofactor : (q h t : ℕ) → IsPrime q → h % q ≢ 0 → h ∣ q * t → h ∣ t
dvd_cofactor q h t prime apart d =
    let u = IsPrime-IsUnit prime h apart in
    let e : h * u.inverse * t + q * t * (1 / q) ≡ t + q * t * (h * u.inverse / q) =
      omega (arith, ap (λ (s : ℕ). s * t) (multiples-Cong u.inverts)) in
    (dvd-add_iff_left h (dvd-mul_right_of_dvd h d (h * u.inverse / q))).1 (
      subst (λ (s : ℕ). h ∣ s) e
        (dvd-add h (dvd-mul_right_of_dvd h (dvd-mul_right h u.inverse) t)
          (dvd-mul_right_of_dvd h d (1 / q))))

-- A divisor of a product that no factor divides is 1.
dvd_no_factor :
    (h : ℕ) (qs : List ℕ) → All IsPrime qs → All (λ q. h % q ≢ 0) qs → h ∣ product qs → h ∣ 1
dvd_no_factor h [] _ _ d = d
dvd_no_factor h (q ∷ qs) (prime, primes) (apart, rest) d =
    dvd_no_factor h qs primes rest (dvd_cofactor q h (product qs) prime apart d)

module _ (r b : ℕ) where
  -- The exponents of the powers that are 1.
  abbrev IsOne : ℕ → Type 0
  IsOne e = Cong r (power b e) 1

  IsOne-* : (n q : ℕ) → IsOne n → IsOne (q * n)
  unfolding power
  IsOne-* n zero h = let e : zero * n ≡ zero = omega arith in Cong-of_eq (ap (power b) e)
  IsOne-* n (suc q) h =
      let e : suc q * n ≡ n + q * n = omega arith in
      Cong-of_eq (ap (power b) e ∙ power-+ b n (q * n)) ⨾ Cong-* h (IsOne-* n q h)

  IsOne-% : (m n : ℕ) → IsOne m → IsOne n → IsOne (m % n)
  IsOne-% m n hm hn =
      let e : m / n * n + m % n ≡ m = omega (arith, div-add-mod m n) in
      Cong-of_eq (omega arith)
      ⨾ Cong-* (Cong-symm (IsOne-* n (m / n) hn)) (Cong-refl (power b (m % n)))
      ⨾ Cong-of_eq (sym (power-+ b (m / n * n) (m % n)) ∙ ap (power b) e)
      ⨾ hm

  IsOne-gcd : (f m n : ℕ) → n < f → IsOne m → IsOne n → IsOne (gcd_ext f m n).0
  unfolding gcd_ext
  IsOne-gcd zero m n h hm hn = absurd (omega arith)
  IsOne-gcd (suc f) m n h hm hn = elim (Bool-cases (n == 0)) [
    | inl z ↦ rw z hm
    | inr nz ↦
        rw nz (IsOne-gcd f n (m % n) (ground (arith, mod-lt m {m = n})) hn (IsOne-% m n hm hn))
  ]

cancel_factor : (q a b : ℕ) → 1 < q → q * a ≡ q * b → a ≡ b
cancel_factor q a b h e = eq_of_mul-eq-mul_left q (omega arith) a b e

Cofactors-map :
    {P Q : ℕ → Type 0}
    → ((c : ℕ) → P c → Q c)
    → (k : ℕ) (qs : List ℕ) → Cofactors P k qs
    → Cofactors Q k qs
Cofactors-map f k [] h = tt
Cofactors-map f k (q ∷ qs) (h, hs) = (f _ h, Cofactors-map f (k * q) qs hs)

-- Where a divisor of a product divides no cofactor, no factor divides the quotient.
dvd_all-Cofactors :
    (g k : ℕ) (qs : List ℕ) (h : ℕ)
    → 0 < g
    → k * product qs ≡ g * h
    → All IsPrime qs
    → Cofactors (λ c. ¬ (g ∣ c)) k qs
    → All (λ q. h % q ≢ 0) qs
dvd_all-Cofactors g k [] h g_pos e primes apart = tt
dvd_all-Cofactors g k (q ∷ qs) h g_pos e (prime, primes) (apart, rest) = (
  λ z. apart (
      subst (λ (t : ℕ). g ∣ t)
        (sym (
          cancel_factor q (k * product qs) (g * (h / q)) prime.one_lt
            (omega (arith, e, ap (λ (t : ℕ). g * t) (div-add-mod h q), ap (λ (t : ℕ). g * t) z))))
        (dvd-mul_right g (h / q))),
  dvd_all-Cofactors g (k * q) qs h g_pos (omega (arith, e)) primes rest,
)

-- The order of `b` is the product where no power to a cofactor is 1.
order_le :
    (r b k : ℕ) (qs : List ℕ)
    → All IsPrime qs
    → Cong r (power b (product qs)) 1
    → Cofactors (λ c. ¬ Cong r (power b c) 1) 1 qs
    → 0 < k
    → Cong r (power b k) 1
    → product qs ≤ k
order_le r b k qs primes one apart k_pos h =
    le_of_dvd k_pos (subst (λ (t : ℕ). t ∣ k) whole divides_k)
  where
    g : ℕ
    g = (gcd_ext (suc k) (product qs) k).0

    both : (g ∣ product qs) × (g ∣ k)
    both = gcd_ext-dvd (suc k) (product qs) k (omega arith)

    divides_k : g ∣ k
    divides_k = both.1

    quotient : product qs / g * g ≡ product qs
    quotient = div-mul_cancel g both.0

    power_g : Cong r (power b g) 1
    power_g = IsOne-gcd r b (suc k) (product qs) k (omega arith) one h

    not_below : (c : ℕ) → ¬ Cong r (power b c) 1 → ¬ (g ∣ c)
    not_below c none d =
        none (Cong-of_eq (ap (power b) (sym (div-mul_cancel g d))) ⨾ IsOne-* r b g (c / g) power_g)

    no_factor : All (λ q. product qs / g % q ≢ 0) qs
    no_factor =
        dvd_all-Cofactors g 1 qs (product qs / g) (pos_of_dvd_of_pos divides_k k_pos)
          (omega (arith, quotient)) primes (Cofactors-map not_below 1 qs apart)

    trivial : product qs / g ≡ 1
    trivial = eq-one_of_dvd-one (
        dvd_no_factor (product qs / g) qs primes no_factor
          (subst (λ (t : ℕ). product qs / g ∣ t) quotient (dvd-mul_right (product qs / g) g)))

    whole : g ≡ product qs
    whole = sym (omega (arith, trivial)) ∙ ap (λ (t : ℕ). t * g) (sym trivial) ∙ quotient

-- Where the powers of `b` below the exponent `n` are not 1, they are distinct, so that there are as
-- many residues.
module _ (r b n : ℕ) (r_gt : 1 < r) (one : Cong r (power b n) 1)
    (order : (k : ℕ) → 0 < k → Cong r (power b k) 1 → n ≤ k) where
  powers_apart : (i j : ℕ) → i < j → j < n → power b i % r ≢ power b j % r
  powers_apart i j i_lt j_lt e =
      let unit : IsUnit r (power b i) = record {
        inverse = power b (n - i);
        inverts =
            Cong-of_eq (sym (power-+ b i (n - i)) ∙ ap (power b) (difference i n (omega arith)))
            ⨾ one;
      } in
      let same : Cong r (power b i * 1) (power b i * power b (j - i)) =
        Cong-of_eq (omega arith)
        ⨾ record { same = e }
        ⨾ Cong-of_eq (ap (power b) (sym (difference i j (omega arith))) ∙ power-+ b i (j - i)) in
      let too_small = order (j - i) (omega arith) (Cong-symm (IsUnit-cancel unit same)) in
      omega arith
    where
      difference : (i j : ℕ) → i < j → i + (j - i) ≡ j
      difference i j h = omega arith

  exponent_le : n ≤ r
  exponent_le =
      pigeonhole r n (λ i. power b i % r) (λ i h. mod-lt (power b i) (omega arith)) powers_apart

-- That the power to `c` less 1 is a unit.
abbrev pub IsApart : ℕ → ℕ → ℕ → Type 0
IsApart p b c = IsUnit p (power b c + (p - 1))

-- `p` is a prime if the product of some primes is more than its root, a power with this product as
-- exponent is 1 modulo `p`, and the powers to the cofactors less 1 are units.
pub IsPrime-of_order :
    (p b : ℕ) (qs : List ℕ)
    → 1 < p
    → p < product qs * product qs
    → All IsPrime qs
    → Cong p (power b (product qs)) 1
    → Cofactors (IsApart p b) 1 qs
    → IsPrime p
IsPrime-of_order p b qs one_lt large primes one apart =
    IsPrime-of_divisors p (product qs) one_lt large (λ r d r_gt.
      exponent_le r b (product qs) r_gt (Cong-dvd d one) (λ k k_pos h.
        order_le r b k qs primes (Cong-dvd d one)
          (Cofactors-map {P = IsApart p b} {Q = λ c. ¬ Cong r (power b c) 1}
            (λ c u same. not_one r c d r_gt u same) 1 qs apart)
          k_pos h))
  where
    whole : (p : ℕ) → 1 < p → 1 + (p - 1) ≡ p
    whole p h = omega arith

    differ : ◌≡◌ {A = ℕ} 0 1 → ⊥
    differ e = omega arith

    not_one : (r c : ℕ) → r ∣ p → 1 < r → IsApart p b c → Cong r (power b c) 1 → ⊥
    not_one r c d r_gt u same =
        let zero_one : Cong r 0 1 =
          Cong-symm (Cong-multiple (p / r * u.inverse))
          ⨾ Cong-of_eq (
              omega (
                arith,
                ap (λ (t : ℕ). t * u.inverse) (div-mul_cancel r d),
                ap (λ (t : ℕ). t * u.inverse) (whole p one_lt),
              ))
          ⨾ Cong-* (Cong-+ (Cong-symm same) (Cong-refl (p - 1))) (Cong-refl u.inverse)
          ⨾ Cong-dvd d u.inverts in
        differ (Cong-small (omega arith) r_gt zero_one)
