-- ===== src/Sssa/Threshold/Feldman.antt =====
-- The sum that `Checkshares` compares is the polynomial's value, times the generator.
use native.Mathlib.Nat.{pow-zero, pow-succ', mod-eq_of_lt, mul_comm}
use address_verification.Base.{
  ℕ, zero, suc, ◌+◌, ◌-◌, ◌*◌, ◌%◌, ◌^◌, ◌<◌, ◌≡◌, sym, ap, ap₂, ◌∙◌, List, [], ◌∷◌, map, some,
  arith, length,
}
use address_verification.Sssa.Lagrange.{value}
use address_verification.Sssa.Threshold.{
  expont_loop, expont_uint16, add_times, pub_sum_loop, pub_sum,
}

-- The powers with exponents below `n` are `uint16`.
abbrev pub HasPowers : ℕ → ℕ → Type 0
HasPowers x n = (i : ℕ) → i < n → x ^ i < 2 ^ 16

expont_loop-power :
    (count x e : ℕ) → HasPowers x (suc (e + count)) → expont_loop count x (x ^ e) ≡ x ^ (e + count)
unfolding expont_loop
expont_loop-power zero x e h = ap (λ (t : ℕ). x ^ t) (omega arith)
expont_loop-power (suc count) x e h =
    let step : x ^ e * x % 2 ^ 16 ≡ x ^ suc e =
      ap (λ (t : ℕ). t % 2 ^ 16) (mul_comm (x ^ e) x ∙ sym (pow-succ' x e))
      ∙ mod-eq_of_lt (h (suc e) (omega arith)) in
    let same : suc e + count ≡ e + suc count = omega arith in
    rw step
      (expont_loop-power count x (suc e) (λ i k. h i (omega arith)) ∙ ap (λ (t : ℕ). x ^ t) same)

power_one : (x : ℕ) → x ^ 1 ≡ x
power_one x =
    let zeroth : x ^ 0 ≡ 1 = pow-zero x in
    pow-succ' x 0 ∙ ap (λ (t : ℕ). x * t) zeroth ∙ omega arith

expont_uint16-power : (x j : ℕ) → 0 < j → HasPowers x (suc j) → expont_uint16 x j ≡ x ^ j
unfolding expont_uint16
expont_uint16-power x zero pos_j h = absurd (omega arith)
expont_uint16-power x (suc j) pos_j h =
    let one : x ^ 1 ≡ x = power_one x in
    let count : suc j - 1 ≡ j = omega arith in
    let same : 1 + j ≡ suc j = omega arith in
    ap₂ (λ (n t : ℕ). expont_loop n x t) count (sym one)
    ∙ expont_loop-power j x 1 (λ i k. h i (omega arith))
    ∙ ap (λ (t : ℕ). x ^ t) same

pow_next : (x j : ℕ) → x ^ (j + 1) ≡ x * x ^ j
pow_next x j = ap (λ (t : ℕ). x ^ t) (omega arith) ∙ pow-succ' x j

module _ {P : Type 0} (add : P → P → P) (of : ℕ → P)
    (add_of : (a b : ℕ) → add (of a) (of b) ≡ of (a + b)) where
  add_times-of : (count a b : ℕ) → add_times add count (of a) (of b) ≡ of (a + count * b)
  unfolding add_times
  add_times-of zero a b = ap of (omega arith)
  add_times-of (suc count) a b =
      rw (add_of a b) (add_times-of count (a + b) b ∙ ap of (omega arith))

  pub_sum_loop-of :
      (x j : ℕ) (cs : List ℕ) (sum : ℕ)
      → 0 < j
      → HasPowers x (j + length cs)
      → pub_sum_loop add x j (map of cs) (of sum) ≡ of (sum + x ^ j * value cs x)
  unfolding pub_sum_loop
  pub_sum_loop-of x j [] sum h k = ap of (omega arith)
  pub_sum_loop-of x j (c ∷ cs) sum h k =
      let power : expont_uint16 x j ≡ x ^ j =
        expont_uint16-power x j h (λ i m. k i (omega arith)) in
      ap (λ (t : ℕ). pub_sum_loop add x (j + 1) (map of cs) (add_times add t (of sum) (of c))) power
      ∙ ap (pub_sum_loop add x (j + 1) (map of cs)) (add_times-of (x ^ j) sum c)
      ∙ (pub_sum_loop-of x (j + 1) cs (sum + x ^ j * c) (omega arith) (λ i m. k i (omega arith))
          ∙ ap of (ap (λ (t : ℕ). sum + x ^ j * c + t * value cs x) (pow_next x j) ∙ omega arith))

  -- Where the addition of points adds the multiples of the generator that they are, the points are a
  -- polynomial's coefficients times the generator, and the powers of the server's number up to the
  -- degree are `uint16`, the sum is the polynomial's value there times the generator.
  pub pub_sum-value :
      (x c : ℕ) (cs : List ℕ)
      → HasPowers x (suc (length cs))
      → pub_sum add x (map of (c ∷ cs)) ≡ some (of (value (c ∷ cs) x))
  unfolding pub_sum
  pub_sum-value x c cs h =
      let one : x ^ 1 ≡ x = power_one x in
      ap some (
        pub_sum_loop-of x 1 cs c (omega arith) (λ i m. h i (omega arith))
        ∙ ap (λ (t : ℕ). of (c + t * value cs x)) one)
