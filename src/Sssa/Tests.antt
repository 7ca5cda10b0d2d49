-- ===== src/Sssa/Tests.antt =====
-- Runs of the secret sharing at concrete inputs, and its theorems at inputs that meet their
-- hypotheses.
use address_verification.Base.{
  zero, suc, none, Option, get_elem?, ap, ◌%◌, ◌+◌, ℕ, ◌*◌, ◌<◌, ◌≡◌, refl, List, [], ◌∷◌, map,
  some, true, false, arith, length, Bytes, codes, All,
}
use address_verification.Base.Int.{ℤ, pos, pos_part}
use address_verification.Base.Mod.{Cong, Cong-mod, Cong-+}
use address_verification.Base.Residues.{sub_mod}
use address_verification.Base.Outcome.{ok}
use address_verification.Sssa.Field.{default_prime, evaluate_polynomial, mod_inverse, in_numbers}
use address_verification.Sssa.Field.Inverse.{mod_inverse-inverts}
use address_verification.Sssa.Field.Horner.{evaluate_polynomial-value}
use address_verification.Sssa.Lagrange.{Apart, value}
use address_verification.Sssa.Draw.{drawn, draw_until, random_in_limit}
use address_verification.Sssa.Create.{
  Created, create_from_int, share_out, polynomials, polynomial_of, coefficients, make_shares,
  make_share, pointers, pointer_at,
}
use address_verification.Sssa.Create.Distinct.{Distinct}
use address_verification.Sssa.Create.Shares.{IsSharing, create_from_int-IsSharing}
use address_verification.Sssa.Create.Recovery.{
  create_from_int-Distinct, select, abscissa, combine-create_from_int,
}
use address_verification.Sssa.Deal.{generate_shares, send_pointer, distribute_msg, checked}
use address_verification.Sssa.Deal.Checked.{IsCurve, distribute_msg-generate_shares}
use address_verification.Sssa.Threshold.Feldman.{HasPowers}
use address_verification.Sssa.Text.{trim_right, merge_int_to_byte, merge_digits}
use address_verification.Sssa.Combine.{Point, interpolate, combine}
use address_verification.Sssa.Combine.Interpolation.{to_point, interpolate-evaluate_polynomial}
use address_verification.Sssa.Combine.Recovery.{print_share, combine-print_share}
use address_verification.Sssa.Base64.{to_base64, from_base64, encode, encode_digit, decode}
use address_verification.Sssa.Base64.RoundTrip.{from_base64-to_base64, decode-encode}
use address_verification.Sssa.Hex.{format_hex, hex_digits, hex_char, hex_decode, unhex_pair, unhex}
use address_verification.Sssa.Hex.Digits.{big_endian}

-- A call for two of three shares: the secret, one coefficient and three coordinates, of which the
-- number 70 is drawn twice.
abbrev draws : List ℕ
draws = 500 ∷ 70 ∷ 1 ∷ 70 ∷ 2 ∷ 5 ∷ []

abbrev points : List (ℕ × ℕ)
points = (1, 570) ∷ (2, 640) ∷ (5, 850) ∷ []

abbrev chosen : List (ℕ × ℕ)
chosen = (1, 570) ∷ (5, 850) ∷ []

abbrev made : Created
made = record {
  shares = map print_share points;
  pointer = 570 ∷ 640 ∷ 710 ∷ [];
  polynomial = 500 ∷ 70 ∷ [];
}

create_runs : create_from_int 2 3 draws ≡ drawn made []
unfolding create_from_int random_in_limit draw_until share_out polynomials polynomial_of
    coefficients make_shares make_share pointers pointer_at evaluate_polynomial in_numbers to_base64
    encode encode_digit format_hex hex_digits hex_char hex_decode unhex_pair unhex
create_runs = refl

Apart-1_5 : Apart default_prime (1 ∷ 5 ∷ [])
unfolding mod_inverse
Apart-1_5 = (
  (
    (
      record {
        inverse = mod_inverse default_prime (pos (sub_mod default_prime 1 5));
        inverts = record { same = refl };
      },
      record {
        inverse = mod_inverse default_prime (pos (sub_mod default_prime 5 1));
        inverts = record { same = refl };
      },
    ),
    tt,
  ),
  (tt, tt),
)

combine-create_from_int_example :
    (bs : Bytes) × (cs : List ℕ) × (combine (select (true ∷ false ∷ true ∷ []) made.shares)
      ≡ ok (trim_right bs))
    × (length bs ≡ 32)
    × (made.polynomial ≡ big_endian bs 0 ∷ cs)
combine-create_from_int_example =
    combine-create_from_int 2 3 draws (true ∷ false ∷ true ∷ []) (omega arith) create_runs
      (omega arith)

create_from_int-Distinct_example : Distinct (0 ∷ map abscissa made.shares)
create_from_int-Distinct_example = create_from_int-Distinct 2 3 draws (omega arith) create_runs

create_from_int-IsSharing_example : IsSharing 2 3 made
create_from_int-IsSharing_example = create_from_int-IsSharing 2 3 draws (omega arith) create_runs

chosen_on :
    All
      (λ (point : ℕ × ℕ). evaluate_polynomial default_prime (500 ∷ 70 ∷ []) point.0 ≡ some point.1)
      chosen
unfolding evaluate_polynomial
chosen_on = (refl, (refl, tt))

combine-print_share_example :
    (bs : Bytes) × (combine (map print_share chosen) ≡ ok (trim_right bs))
    × (length bs ≡ 32)
    × (big_endian bs 0 ≡ 500)
combine-print_share_example =
    combine-print_share 500 (70 ∷ []) chosen (omega arith) (omega arith) Apart-1_5 (omega arith)
      chosen_on

interpolate-evaluate_polynomial_example : interpolate default_prime (map to_point chosen) ≡ 500
interpolate-evaluate_polynomial_example =
    interpolate-evaluate_polynomial 500 (70 ∷ []) chosen (omega arith) (omega arith) Apart-1_5
      chosen_on

mod_inverse-inverts_example : Cong 26 (7 * mod_inverse 26 (pos 7)) 1
mod_inverse-inverts_example =
    mod_inverse-inverts 26 7 (omega arith)
      (record { inverse = 15; inverts = record { same = refl } })

evaluate_polynomial-value_example :
    (r : ℕ) × (evaluate_polynomial 97 (5 ∷ 60 ∷ 90 ∷ []) 33 ≡ some r)
    × Cong 97 r (value (5 ∷ 60 ∷ 90 ∷ []) 33)
    × (r < 97)
evaluate_polynomial-value_example =
    evaluate_polynomial-value (omega arith) 5 (60 ∷ 90 ∷ []) 33 (omega arith)

from_base64-to_base64_example : from_base64 (to_base64 (pos 123456789)) ≡ pos 123456789
from_base64-to_base64_example = from_base64-to_base64 123456789 (omega arith)

decode-encode_example : decode (encode (codes "any")) ≡ some (codes "any")
decode-encode_example = decode-encode (codes "any") (omega arith)

-- The residues modulo the prime as a curve.
abbrev residue : ℕ → Point
residue n = (pos (n % default_prime), pos 0)

abbrev add_residues : Point → Point → Point
add_residues (x, _) (y, _) = residue (pos_part x + pos_part y)

abbrev residue_of : ℤ → Point
residue_of n = residue (pos_part n)

residues-IsCurve : IsCurve add_residues residue_of residue
residues-IsCurve = record {
  add_lem = λ a b.
      ap (λ (n : ℕ). (pos n, pos 0))
        (Cong-+ {p = default_prime} (Cong-mod {p = default_prime} a)
          (Cong-mod {p = default_prime} b)).same;
  order_lem = λ a. ap (λ (n : ℕ). (pos n, pos 0)) ((Cong-mod {p = default_prime} a).same);
  public_lem = λ a. refl;
  x_of = λ a. a % default_prime;
  y_of = λ a. 0;
  point_lem = λ a. refl;
  x_lem = λ a. omega arith;
  y_lem = λ a. omega arith;
}

dealt :
    generate_shares residue_of 2 3 draws
    ≡ drawn (map (λ c. residue_of (pos c)) (500 ∷ 70 ∷ []), 570 ∷ 640 ∷ 710 ∷ []) []
unfolding generate_shares
dealt =
    let (bs, cs, e, _, _) =
      combine-create_from_int 2 3 draws (true ∷ true ∷ true ∷ []) (omega arith) create_runs
        (omega arith) in
    let whole : combine made.shares ≡ ok (trim_right bs) = e in
    rw (create_runs, whole, generate_shares) refl

powers_1 : HasPowers 1 2
powers_1 zero h = omega arith
powers_1 (suc zero) h = omega arith
powers_1 (suc (suc i)) h = absurd (omega arith)

distribute_msg-generate_shares_example :
    (stored : List (Option ℤ)) × (distribute_msg add_residues residue_of
        (send_pointer 2 570 (map (λ c. residue_of (pos c)) (500 ∷ 70 ∷ [])))
        1
        9001
        (none ∷ none ∷ none ∷ [])
      ≡ some (checked true stored))
    × (get_elem? stored 1 ≡ some (some (pos 570)))
distribute_msg-generate_shares_example =
    distribute_msg-generate_shares add_residues residue_of residue residues-IsCurve 2 3 draws []
      (map (λ c. residue_of (pos c)) (500 ∷ 70 ∷ [])) (570 ∷ 640 ∷ 710 ∷ []) 1 2 9001 570
      (none ∷ none ∷ none ∷ []) (omega arith) dealt (omega arith) (omega arith) refl powers_1
      (omega arith) (omega arith) (omega arith)

-- More coefficients than shares: no value is dealt, and nothing is drawn.
dealt_nothing : generate_shares (λ z. z) 3 2 (7 ∷ []) ≡ drawn ([], []) (7 ∷ [])
unfolding generate_shares create_from_int combine merge_int_to_byte merge_digits
dealt_nothing = refl
