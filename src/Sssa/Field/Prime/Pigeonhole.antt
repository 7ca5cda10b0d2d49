-- ===== src/Sssa/Field/Prime/Pigeonhole.antt =====
-- Distinct numbers below a bound are no more than the bound.
use address_verification.Base.{ℕ, zero, suc, ◌<◌, ◌≤◌, ◌≢◌, arith, ◌==◌, if◌then◌else◌}

pub pigeonhole :
    (m n : ℕ) (f : ℕ → ℕ)
    → ((i : ℕ) → i < n → f i < m)
    → ((i j : ℕ) → i < j → j < n → f i ≢ f j)
    → n ≤ m
pigeonhole m zero f below apart = omega arith
pigeonhole zero (suc n) f below apart = absurd (none_below (f 0) (below 0 (omega arith)))
  where
    none_below : (t : ℕ) → t < 0 → ⊥
    none_below t h = omega arith
pigeonhole (suc m) (suc n) f below apart =
    let rest =
      pigeonhole m n (λ i. if f i == m then f n else f i)
        (λ i h. ground (arith, below i, below n, apart i n))
        (λ i j h k. ground (arith, apart i j, apart i n, apart j n, below n)) in
    omega (arith, rest)
