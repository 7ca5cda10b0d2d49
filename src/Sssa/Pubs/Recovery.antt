-- ===== src/Sssa/Pubs/Recovery.antt =====
-- `CombineECDSAPubs` on two printed shares recovers the constant of the polynomial, times the point.
use address_verification.Base.{ℕ, suc, ◌<◌, ◌≤◌, ◌≡◌, ◌≢◌, ◌∙◌, List, [], ◌∷◌, some, length, arith}
use address_verification.Base.Int.{ℤ, pos}
use address_verification.Base.Outcome.{ok}
use address_verification.Sssa.Field.{default_prime, evaluate_polynomial}
use address_verification.Sssa.Create.Distinct.{Distinct-Apart}
use address_verification.Sssa.Pubs.{Curve, combine_ecdsa_pubs}
use address_verification.Sssa.Pubs.Multiples.{IsMultiples, add_pubs-constant}
use address_verification.Sssa.Pubs.Printed.{
  IsPrintable, print_triple, combine_ecdsa_pubs-print_triple,
}

-- The coordinates of a multiple as integers.
abbrev pub integers : (ℕ → ℕ × ℕ) → ℕ → ℤ × ℤ
integers plane k = (pos (plane k).0, pos (plane k).1)

-- A share: the number of the server, and the coordinates of the multiple.
abbrev pub share_at : (ℕ → ℕ × ℕ) → ℕ → ℕ → ℕ × ℕ × ℕ
share_at plane x k = (x, (plane k).0, (plane k).1)

-- Two printed shares with different numbers, multiples of a point whose order is the prime by the
-- values there of a polynomial with one or two coefficients, combine to the text of the constant
-- term times the point, where the coordinates are below the prime.
pub combine_ecdsa_pubs-evaluate_polynomial :
    {P : Type 0} (curve : Curve P) (times : ℕ → P) (plane : ℕ → ℕ × ℕ) (c : ℕ) (cs : List ℕ)
    (x k y l : ℕ)
    → IsMultiples default_prime curve times (integers plane)
    → c < default_prime
    → suc (length cs) ≤ 2
    → x ≢ y
    → evaluate_polynomial default_prime (c ∷ cs) x ≡ some k
    → evaluate_polynomial default_prime (c ∷ cs) y ≡ some l
    → IsPrintable (share_at plane x k)
    → IsPrintable (share_at plane y l)
    → combine_ecdsa_pubs curve
        (print_triple (share_at plane x k) ∷ print_triple (share_at plane y l) ∷ [])
      ≡ ok (curve.from_ecdsa_pub (times c))
combine_ecdsa_pubs-evaluate_polynomial curve times plane c cs x k y l multiples small size apart
      on_x on_y h m =
    combine_ecdsa_pubs-print_triple curve (share_at plane x k) (share_at plane y l) h m
    ∙ add_pubs-constant (omega arith) curve times (integers plane) multiples c cs x k y l small size
        (Distinct-Apart (x ∷ y ∷ []) (h.number, (m.number, tt)) ((apart, tt), (tt, tt))) on_x on_y
