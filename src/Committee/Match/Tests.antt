-- ===== src/Committee/Match/Tests.antt =====
-- Two servers publish shares of the polynomial 500 + 70 * x, over the numbers modulo the prime as a
-- curve.
use address_verification.Base.{
  ℕ, ◌+◌, ◌*◌, ◌%◌, ◌^◌, ◌<◌, ◌≡◌, inl, inr, refl, ap, ◌∙◌, List, [], ◌∷◌, some, true, arith, Bytes,
  length, All, replicate,
}
use address_verification.Base.Int.{ℤ, pos, pos_part}
use address_verification.Base.Mod.{Cong-*, Cong-mod, Cong-refl}
use address_verification.Sssa.Field.{default_prime, evaluate_polynomial}
use address_verification.Sssa.Combine.{Point}
use address_verification.Sssa.Pubs.Multiples.{IsMultiples}
use address_verification.Sssa.Pubs.Printed.{IsPrintable}
use address_verification.Sssa.Pubs.Recovery.{integers, share_at}
use address_verification.Sssa.Threshold.{same_point}
use address_verification.Committee.Match.{Scanner, check_get_valid_a1s1}
use address_verification.Committee.Match.Published.{
  published, published-length, check_get_valid_a1s1-share_pub_str,
}

abbrev multiply : ℤ → ℕ → ℤ × ℤ
multiply share key = (pos (pos_part share * key % default_prime), pos 0)

multiply_lem :
    (share : ℤ) (key : ℕ)
    → (x : ℕ) × (y : ℕ) × (multiply share key ≡ (pos x, pos y)) × (x < 2 ^ 256) × (y < 2 ^ 256)
multiply_lem share key = (_, _, refl, omega arith, omega arith)

abbrev times : ℕ → ℕ
times k = k % default_prime

abbrev plane : ℕ → ℕ × ℕ
plane k = (k * 1 % default_prime, 0)

-- The key comes first in its text, and the scan reads it.
abbrev scan : Bytes → ℕ → Point
scan [] key = (pos 0, pos 0)
scan (b ∷ combined) key = (pos b, pos key)

abbrev scanner : Scanner ℕ ℕ
scanner = record {
  curve = record {
    scalar_mult = λ x y w. some (pos_part x * w % default_prime);
    add = λ a b. (a + b) % default_prime;
    from_ecdsa_pub = λ a. a ∷ [];
  };
  generate_pk_pair = λ address. some ((pos 500, pos 3), 3);
  scan_pub_shares_a1 = scan;
}

times-IsMultiples : IsMultiples default_prime scanner.curve times (integers plane)
times-IsMultiples = record {
  scalar_mult = λ k w. ap some (
      (Cong-* (Cong-mod (k * 1)) (Cong-refl w)).same
      ∙ ap (λ (t : ℕ). t * w % default_prime) (omega arith));
  add = λ a b. omega arith;
  order = λ a b h. h.same;
}

abbrev keys : List ℕ
keys = 7 ∷ 1 ∷ []

abbrev msg_map : Bytes → List Bytes
msg_map _ = published multiply keys 1 570 ∷ replicate 132 0 ∷ published multiply keys 5 850 ∷ []

msg_map-sized : (a1s1 : Bytes) → All (λ msg. length msg % 132 ≡ 0) (msg_map a1s1)
msg_map-sized a1s1 = (
  published-length multiply multiply_lem keys 1 570 (omega arith),
  (refl, (published-length multiply multiply_lem keys 5 850 (omega arith), tt)),
)

at_1 : evaluate_polynomial default_prime (500 ∷ 70 ∷ []) 1 ≡ some 570
unfolding evaluate_polynomial
at_1 = refl

at_5 : evaluate_polynomial default_prime (500 ∷ 70 ∷ []) 5 ≡ some 850
unfolding evaluate_polynomial
at_5 = refl

share_1-IsPrintable : IsPrintable (share_at plane 1 570)
share_1-IsPrintable = record {
  number = omega arith;
  x_coordinate = omega arith;
  y_coordinate = omega arith;
}

share_5-IsPrintable : IsPrintable (share_at plane 5 850)
share_5-IsPrintable = record {
  number = omega arith;
  x_coordinate = omega arith;
  y_coordinate = omega arith;
}

scans : same_point (pos 500, pos 3) (scan (500 ∷ []) 3) ≡ true
unfolding same_point
scans = refl

check_get_valid_a1s1-share_pub_str_example :
    check_get_valid_a1s1 scanner msg_map (replicate 132 b'1') ≡ some true
check_get_valid_a1s1-share_pub_str_example =
    check_get_valid_a1s1-share_pub_str multiply keys scanner msg_map (replicate 132 b'1')
      (pos 500, pos 3) 3 1 times plane 500 (70 ∷ []) 1 570 5 850 multiply_lem (λ k. refl)
      times-IsMultiples (omega arith) (omega arith) (λ e. omega (arith, e)) at_1 at_5
      share_1-IsPrintable share_5-IsPrintable refl scans (inr (inl refl))
      (msg_map-sized (replicate 132 b'1')) (inl (inr (inl (refl, refl))))
