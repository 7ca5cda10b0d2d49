-- ===== src/Sssa/Field.antt =====
-- The arithmetic of sssa/utils.go modulo the package variable `prime`: `inNumbers`,
-- `evaluatePolynomial` and `modInverse`, with the extended Euclid of `big.Int.GCD`.
pub mod Inverse
pub mod Prime
pub mod Horner
use address_verification.Base.{
  ℕ, zero, suc, ◌+◌, ◌*◌, ◌/◌, ◌%◌, List, [], ◌∷◌, reverse, Option, none, some, Bool, true, false,
  ◌==◌, if◌then◌else◌,
}
use address_verification.Base.Int.{ℤ, pos, negsuc, ◌+ℤ◌, ◌-ℤ◌, ◌*ℤ◌, emod}

-- `DefaultPrimeStr`.
abbrev pub default_prime : ℕ
default_prime = 115792089237316195423570985008687907852837564279074904382605163141518161494337

-- `numbers[n].Cmp(value) == 0` for some n.
unfoldable pub in_numbers : List ℕ → ℕ → Bool
in_numbers [] value = false
in_numbers (n ∷ numbers) value = if n == value then true else in_numbers numbers value

-- The loop of `evaluatePolynomial`, over the coefficients from the last but one down to the first.
horner : ℕ → ℕ → List ℕ → ℕ → ℕ
horner prime value [] result = result
horner prime value (c ∷ cs) result = horner prime value cs ((result * value + c) % prime)

horner_from : ℕ → ℕ → List ℕ → Option ℕ
horner_from prime value [] = none
horner_from prime value (c ∷ cs) = some (horner prime value cs c)

-- `none`: the index -1 of an empty polynomial panics.
unfoldable pub evaluate_polynomial : ℕ → List ℕ → ℕ → Option ℕ
unfolding horner_from horner
evaluate_polynomial prime polynomial value = horner_from prime value (reverse polynomial)

-- `GCD`: the greatest common divisor d of a and b with x and y such that a x + b y = d.
unfoldable pub gcd_ext : ℕ → ℕ → ℕ → ℕ × ℤ × ℤ
gcd_ext zero a b = (a, pos 1, pos 0)
gcd_ext (suc fuel) a b =
    let rest = gcd_ext fuel b (a % b) in
    let step : ℕ × ℤ × ℤ = (rest.0, rest.2, rest.1 -ℤ pos (a / b) *ℤ rest.2) in
    if b == 0 then (a, pos 1, pos 0) else step

unfoldable pub mod_inverse : ℕ → ℤ → ℕ
unfolding gcd_ext emod ◌+ℤ◌ ◌-ℤ◌ ◌*ℤ◌
mod_inverse prime number =
    let copy = emod number prime in
    let y = (gcd_ext (suc copy) prime copy).2 in emod (pos prime +ℤ y) prime
