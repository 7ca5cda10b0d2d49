-- ===== src/Sssa/Field/Prime/Certificate.antt =====
-- The certificate of the prime of sssa/sssa.go: three of the prime factors of the number before it.
use address_verification.Base.{ℕ, ◌+◌, ◌-◌, ◌*◌, ◌%◌, ◌^◌, ◌<◌, ◌≡◌, refl, [], ◌∷◌, arith}
use address_verification.Base.Int.{pos}
use address_verification.Base.Mod.{Cong, Cong-symm, Cong-refl, Cong-+, ◌⨾◌}
use address_verification.Base.Residues.{IsUnit-Cong}
use address_verification.Sssa.Field.{default_prime, mod_inverse}
use address_verification.Sssa.Field.Prime.{IsPrime, has_divisor, IsPrime-by_trial}
use address_verification.Sssa.Field.Prime.Power.{power, pow_mod, pow_mod-power}
use address_verification.Sssa.Field.Prime.Pocklington.{IsApart, IsPrime-of_order}

-- The value that is to be a unit, as it is computed, and its product with what `modInverse` returns.
unfoldable pub apart_check : ℕ → ℕ → ℕ → ℕ
unfolding pow_mod mod_inverse
apart_check p b c = let value = pow_mod 256 p b c + (p - 1) in value * mod_inverse p (pos value) % p

apart_check-IsApart : (p b c : ℕ) → c < 2 ^ 256 → apart_check p b c ≡ 1 % p → IsApart p b c
unfolding apart_check
apart_check-IsApart p b c small e =
    IsUnit-Cong (Cong-+ (pow_mod-power 256 p b c small) (Cong-refl (p - 1))) (record {
      inverse = mod_inverse p (pos (pow_mod 256 p b c + (p - 1)));
      inverts = record { same = e };
    })

power_one : (p b e : ℕ) → e < 2 ^ 256 → pow_mod 256 p b e % p ≡ 1 % p → Cong p (power b e) 1
power_one p b e small h = Cong-symm (pow_mod-power 256 p b e small) ⨾ record { same = h }

IsPrime-631 : IsPrime 631
unfolding has_divisor
IsPrime-631 = IsPrime-by_trial 631 24 (omega arith) (omega arith) refl

IsPrime-85831 : IsPrime 85831
unfolding has_divisor
IsPrime-85831 = IsPrime-by_trial 85831 292 (omega arith) (omega arith) refl

IsPrime-120233 : IsPrime 120233
unfolding has_divisor
IsPrime-120233 = IsPrime-by_trial 120233 346 (omega arith) (omega arith) refl

IsPrime-4681609 : IsPrime 4681609
unfolding has_divisor
IsPrime-4681609 = IsPrime-by_trial 4681609 2163 (omega arith) (omega arith) refl

IsPrime-44706919 : IsPrime 44706919
unfolding has_divisor
IsPrime-44706919 = IsPrime-by_trial 44706919 6686 (omega arith) (omega arith) refl

abbrev first_factor : ℕ
first_factor = 107361793816595537

abbrev first_base : ℕ
first_base = 18633754915179990

IsPrime-first_factor : IsPrime first_factor
unfolding apart_check pow_mod mod_inverse
IsPrime-first_factor =
    IsPrime-of_order first_factor first_base (4681609 ∷ 85831 ∷ []) (omega arith) (omega arith)
      (IsPrime-4681609, (IsPrime-85831, tt))
      (power_one first_factor first_base _ (omega arith) refl)
      (
        apart_check-IsApart first_factor first_base _ (omega arith) refl,
        (apart_check-IsApart first_factor first_base _ (omega arith) refl, tt),
      )

abbrev second_factor : ℕ
second_factor = 174723607534414371449

abbrev second_base : ℕ
second_base = 137705978603016281812

IsPrime-second_factor : IsPrime second_factor
unfolding apart_check pow_mod mod_inverse
IsPrime-second_factor =
    IsPrime-of_order second_factor second_base (44706919 ∷ 120233 ∷ []) (omega arith) (omega arith)
      (IsPrime-44706919, (IsPrime-120233, tt))
      (power_one second_factor second_base _ (omega arith) refl)
      (
        apart_check-IsApart second_factor second_base _ (omega arith) refl,
        (apart_check-IsApart second_factor second_base _ (omega arith) refl, tt),
      )

abbrev base : ℕ
base = 28991664249318299955348405032366046629282352176569988393346601462961448624679

-- The prime of the secret sharing is a prime.
pub IsPrime-default_prime : IsPrime default_prime
unfolding apart_check pow_mod mod_inverse
IsPrime-default_prime =
    IsPrime-of_order default_prime base (second_factor ∷ first_factor ∷ 631 ∷ []) (omega arith)
      (omega arith) (IsPrime-second_factor, (IsPrime-first_factor, (IsPrime-631, tt)))
      (power_one default_prime base _ (omega arith) refl)
      (
        apart_check-IsApart default_prime base _ (omega arith) refl,
        (
          apart_check-IsApart default_prime base _ (omega arith) refl,
          (apart_check-IsApart default_prime base _ (omega arith) refl, tt),
        ),
      )
