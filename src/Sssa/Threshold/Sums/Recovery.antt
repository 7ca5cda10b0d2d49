-- ===== src/Sssa/Threshold/Sums/Recovery.antt =====
-- From the sums that the servers print to the sum of the dealers' secrets.
use address_verification.Base.{
  ℕ, suc, ◌%◌, ◌^◌, ◌<◌, ◌≤◌, ◌≡◌, refl, List, [], ◌∷◌, map, some, arith, Bytes, length, All,
}
use native.Mathlib.Nat.{mod-lt}
use address_verification.Base.Int.{pos}
use address_verification.Base.Mod.{Cong, ◌⨾◌, Cong-symm, Cong-mod, Cong-small, Cong-of_eq}
use address_verification.Base.Outcome.{ok}
use address_verification.Sssa.Field.{default_prime}
use address_verification.Sssa.Hex.Digits.{big_endian}
use address_verification.Sssa.Text.{trim_right}
use address_verification.Sssa.Lagrange.{value}
use address_verification.Sssa.Combine.{combine, interpolate}
use address_verification.Sssa.Combine.Interpolation.{
  to_point, xs_of, sum_loop-value, interpolate-lt,
}
use address_verification.Sssa.Combine.Recovery.{
  print_share, IsResidue, decode_shares-print_share, one_part, merge_int_to_byte-one,
}
use address_verification.Sssa.Create.Distinct.{Distinct, Distinct-Apart}
use address_verification.Sssa.Threshold.{share_sum, count_shares_part}
use address_verification.Sssa.Threshold.Sums.{
  Dealers, dealt, sum_of_polynomials, sum_of_secrets, length-sum_of_polynomials,
  value-sum_of_polynomials, share_sum-Cong,
}

-- The number of a server and the sum of what it received.
abbrev pub HasSum : Dealers → ℕ × ℕ → Type 0
HasSum dealers (x, y) = share_sum (dealt dealers x) (pos 0) ≡ some (pos y)

count_shares_part-print_share :
    (dealers : Dealers) (points : List (ℕ × ℕ))
    → All (HasSum dealers) points
    → All
        (λ point. count_shares_part point.0 (dealt dealers point.0) ≡ some (print_share point))
        points
unfolding count_shares_part
count_shares_part-print_share dealers [] h = tt
count_shares_part-print_share dealers ((x, y) ∷ points) (h, hs) =
    (rw (h, count_shares_part) refl, count_shares_part-print_share dealers points hs)

on_sum :
    (dealers : Dealers) (points : List (ℕ × ℕ))
    → All (λ dealer. dealer.0 < default_prime) dealers
    → All (HasSum dealers) points
    → All (λ point. Cong default_prime point.1 (value (sum_of_polynomials dealers) point.0)) points
on_sum dealers [] small h = tt
on_sum dealers ((x, y) ∷ points) small (h, hs) =
    (share_sum-Cong dealers x y small h, on_sum dealers points small hs)

residues_below :
    (points : List (ℕ × ℕ)) → All IsResidue points → All (λ x. x < default_prime) (xs_of points)
residues_below [] h = tt
residues_below ((x, y) ∷ points) ((hx, _), h) = (hx, residues_below points h)

interpolate-sum :
    (dealers : Dealers) (points : List (ℕ × ℕ))
    → All (λ dealer. dealer.0 < default_prime) dealers
    → All (λ dealer. suc (length dealer.1) ≤ length (xs_of points)) dealers
    → Distinct (xs_of points)
    → All IsResidue points
    → All (HasSum dealers) points
    → interpolate default_prime (map to_point points) ≡ sum_of_secrets dealers % default_prime
interpolate-sum dealers points small sizes distinct residues sums =
    let p_pos : 0 < default_prime = omega arith in
    Cong-small (interpolate-lt p_pos (map to_point points)) (mod-lt _ p_pos) (
      sum_loop-value p_pos (sum_of_polynomials dealers) points
        (length-sum_of_polynomials dealers (length (xs_of points)) sizes)
        (Distinct-Apart (xs_of points) (residues_below points residues) distinct)
        (on_sum dealers points small sums)
      ⨾ Cong-of_eq (value-sum_of_polynomials dealers)
      ⨾ Cong-symm (Cong-mod _))

-- Dealers send the values of their polynomials to the servers. Where the sums that the servers have
-- are below the prime, each server prints its number and its sum as a share; and the shares of
-- different servers, no fewer than any dealer's polynomial has coefficients, are combined to 32
-- bytes less the zero bytes at their end, which are the sum of the dealers' secrets modulo
-- the prime.
pub combine-count_shares_part :
    (dealers : Dealers) (points : List (ℕ × ℕ))
    → 0 < length points
    → All (λ dealer. dealer.0 < default_prime) dealers
    → All (λ dealer. suc (length dealer.1) ≤ length (xs_of points)) dealers
    → Distinct (xs_of points)
    → All IsResidue points
    → All (HasSum dealers) points
    → All
        (λ point. count_shares_part point.0 (dealt dealers point.0) ≡ some (print_share point))
        points
      × (bs : Bytes) × (combine (map print_share points) ≡ ok (trim_right bs))
      × (length bs ≡ 32)
      × (big_endian bs 0 ≡ sum_of_secrets dealers % default_prime)
unfolding combine
combine-count_shares_part dealers [] some_point small sizes distinct residues sums =
    absurd (omega arith)
combine-count_shares_part dealers (point ∷ points) some_point small sizes distinct residues sums =
    let total : ℕ = sum_of_secrets dealers % default_prime in
    let (bs, merged, count, value) = merge_int_to_byte-one total (below (mod-lt _ (omega arith))) in
    (
      count_shares_part-print_share dealers (point ∷ points) sums,
      bs,
      rw (
        decode_shares-print_share (point ∷ points) residues,
        one_part (point ∷ points),
        interpolate-sum dealers (point ∷ points) small sizes distinct residues sums,
        merged,
      ),
      count,
      value,
    )
  where
    below : {n : ℕ} → n < default_prime → n < 2 ^ 256
    below h = omega arith
