-- ===== src/Sssa/Pubs/Tests.antt =====
-- The sum of two shares at a concrete input, over the numbers modulo the prime as a curve.
use address_verification.Base.{ℕ, ◌+◌, ◌*◌, ◌%◌, ◌<◌, ◌≡◌, refl, [], ◌∷◌, some, arith}
use address_verification.Base.Int.{pos_part}
use address_verification.Base.Outcome.{ok}
use address_verification.Sssa.Field.{default_prime, evaluate_polynomial}
use address_verification.Sssa.Pubs.{Curve, combine_ecdsa_pubs}
use address_verification.Sssa.Pubs.Multiples.{IsMultiples}
use address_verification.Sssa.Pubs.Printed.{IsPrintable, print_triple}
use address_verification.Sssa.Pubs.Recovery.{
  integers, share_at, combine_ecdsa_pubs-evaluate_polynomial,
}

abbrev numbers : Curve ℕ
numbers = record {
  scalar_mult = λ x y w. some (pos_part x * w % default_prime);
  add = λ a b. (a + b) % default_prime;
  from_ecdsa_pub = λ a. a ∷ [];
}

abbrev residue : ℕ → ℕ
residue k = k % default_prime

abbrev plane : ℕ → ℕ × ℕ
plane k = (k, 0)

numbers-IsMultiples : IsMultiples default_prime numbers residue (integers plane)
numbers-IsMultiples = record {
  scalar_mult = λ k w. refl;
  add = λ a b. omega arith;
  order = λ a b h. h.same;
}

at_1 : evaluate_polynomial default_prime (500 ∷ 70 ∷ []) 1 ≡ some 570
unfolding evaluate_polynomial
at_1 = refl

at_5 : evaluate_polynomial default_prime (500 ∷ 70 ∷ []) 5 ≡ some 850
unfolding evaluate_polynomial
at_5 = refl

share_at-IsPrintable :
    (x k : ℕ) → x < default_prime → k < default_prime → IsPrintable (share_at plane x k)
share_at-IsPrintable x k hx hk = record {
  number = hx;
  x_coordinate = hk;
  y_coordinate = omega arith;
}

combine_ecdsa_pubs-evaluate_polynomial_example :
    combine_ecdsa_pubs numbers
      (print_triple (share_at plane 1 570) ∷ print_triple (share_at plane 5 850) ∷ [])
    ≡ ok (500 ∷ [])
combine_ecdsa_pubs-evaluate_polynomial_example =
    combine_ecdsa_pubs-evaluate_polynomial numbers residue plane 500 (70 ∷ []) 1 570 5 850
      numbers-IsMultiples (omega arith) (omega arith) (λ e. omega (arith, e)) at_1 at_5
      (share_at-IsPrintable 1 570 (omega arith) (omega arith))
      (share_at-IsPrintable 5 850 (omega arith) (omega arith))
