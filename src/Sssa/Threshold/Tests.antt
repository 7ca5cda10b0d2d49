-- ===== src/Sssa/Threshold/Tests.antt =====
-- `expontUint16` where the power does not fit, and two dealers for two servers.
use address_verification.Base.{
  ℕ, ◌%◌, ◌^◌, ◌<◌, ◌≡◌, refl, List, [], ◌∷◌, map, some, arith, Bytes, length, All,
}
use address_verification.Base.Int.{◌+ℤ◌}
use address_verification.Base.Outcome.{ok}
use address_verification.Sssa.Field.{default_prime, evaluate_polynomial}
use address_verification.Sssa.Hex.Digits.{big_endian}
use address_verification.Sssa.Text.{trim_right}
use address_verification.Sssa.Combine.{combine}
use address_verification.Sssa.Combine.Recovery.{print_share}
use address_verification.Sssa.Threshold.{expont_uint16, share_sum, count_shares_part}
use address_verification.Sssa.Threshold.Sums.{Dealers, dealt, sum_of_secrets}
use address_verification.Sssa.Threshold.Sums.Recovery.{HasSum, combine-count_shares_part}
use address_verification.Sssa.Threshold.Words.{expont_uint16-mod}

expont_uint16-mod_example :
    (expont_uint16 300 3 ≡ 300 ^ 3 % 2 ^ 16)
    × (expont_uint16 300 0 ≡ 300)
    × (expont_uint16 300 2 < 2 ^ 16)
expont_uint16-mod_example = expont_uint16-mod 300 2 (omega arith)

abbrev dealers : Dealers
dealers = (5, 6 ∷ []) ∷ (7, 8 ∷ []) ∷ []

abbrev points : List (ℕ × ℕ)
points = (1, 26) ∷ (2, 40) ∷ []

points-HasSum : All (HasSum dealers) points
unfolding share_sum evaluate_polynomial ◌+ℤ◌
points-HasSum = (refl, (refl, tt))

combine-count_shares_part_example :
    All
      (λ point. count_shares_part point.0 (dealt dealers point.0) ≡ some (print_share point))
      points
    × (bs : Bytes) × (combine (map print_share points) ≡ ok (trim_right bs))
    × (length bs ≡ 32)
    × (big_endian bs 0 ≡ sum_of_secrets dealers % default_prime)
combine-count_shares_part_example =
    combine-count_shares_part dealers points (omega arith) (omega arith) (omega arith)
      (((λ e. omega (arith, e)), tt), (tt, tt)) (omega arith) points-HasSum
