-- ===== src/Sssa/Combine/Recovery.antt =====
-- `Combine` on shares of one part: from the printed points to the secret.
use address_verification.Base.{
  ℕ, suc, ◌/◌, ◌^◌, ◌<◌, ◌≤◌, ◌≡◌, refl, ◌∙◌, List, [], ◌∷◌, ◌++◌, map, some, true, false, arith,
  length, length-append, append-nil, take-append_exact, drop-append_exact, All, take, drop, Bytes,
  ltb,
}
use address_verification.Base.Int.{pos}
use address_verification.Base.Outcome.{ok}
use address_verification.Sssa.Field.{default_prime, evaluate_polynomial}
use address_verification.Sssa.Base64.{to_base64, from_base64}
use address_verification.Sssa.Base64.RoundTrip.{length-to_base64, from_base64-to_base64}
use address_verification.Sssa.Hex.{format_hex, pad_zeros}
use address_verification.Sssa.Hex.Digits.{big_endian, length-format_hex, padded, decoded}
use address_verification.Sssa.Text.{merge_int_to_byte, merge_digits, trim_right}
use address_verification.Sssa.Lagrange.{Apart}
use address_verification.Sssa.Combine.{
  is_valid_share, share_points, decode_shares, interpolate, part, interpolate_parts, combine,
}
use address_verification.Sssa.Combine.Interpolation.{
  to_point, xs_of, interpolate-evaluate_polynomial,
}

-- A share of one part, as `Create` prints it.
abbrev pub print_share : ℕ × ℕ → Bytes
print_share (x, y) = to_base64 (pos x) ++ to_base64 (pos y)

abbrev pub IsResidue : ℕ × ℕ → Type 0
IsResidue (x, y) = (x < default_prime) × (y < default_prime)

fits : (n : ℕ) → n < default_prime → n < 2 ^ 256
fits n h = omega arith

length-print_share : (point : ℕ × ℕ) → IsResidue point → length (print_share point) ≡ 88
length-print_share (x, y) (hx, hy) = omega (
  arith,
  length-append (to_base64 (pos x)) (to_base64 (pos y)),
  length-to_base64 x (fits x hx),
  length-to_base64 y (fits y hy),
)

take_all : (s : Bytes) (n : ℕ) → length s ≡ n → take n s ≡ s
take_all s n h = rw (append-nil) at (take-append_exact s [] n h)

-- The two halves of a printed share.
first_half : (s t : Bytes) → length s ≡ 44 → take 44 (s ++ t) ≡ s
first_half s t h = take-append_exact s t 44 h

second_half : (s t : Bytes) → length s ≡ 44 → drop 44 (s ++ t) ≡ t
second_half s t h = drop-append_exact s t 44 h

module _ (x y : ℕ) (hx : x < default_prime) (hy : y < default_prime) where
  x_size : length (to_base64 (pos x)) ≡ 44
  x_size = length-to_base64 x (fits x hx)

  y_size : length (to_base64 (pos y)) ≡ 44
  y_size = length-to_base64 y (fits y hy)

  pub x_read : from_base64 (take 44 (print_share (x, y))) ≡ pos x
  x_read =
      rw (first_half (to_base64 (pos x)) (to_base64 (pos y)) x_size)
        (from_base64-to_base64 x (fits x hx))

  y_read : from_base64 (drop 44 (print_share (x, y))) ≡ pos y
  y_read =
      rw (second_half (to_base64 (pos x)) (to_base64 (pos y)) x_size)
        (from_base64-to_base64 y (fits y hy))

  y_block : from_base64 (take 44 (drop 44 (print_share (x, y)))) ≡ pos y
  y_block =
      rw
        (
          second_half (to_base64 (pos x)) (to_base64 (pos y)) x_size,
          take_all (to_base64 (pos y)) 44 y_size,
        )
        (from_base64-to_base64 y (fits y hy))

  -- A printed share is valid.
  is_valid_share-print_share : is_valid_share (print_share (x, y)) ≡ true
  unfolding is_valid_share
  is_valid_share-print_share =
      rw (length-print_share (x, y) (hx, hy), x_read, y_block) (ground arith)

  -- It is decoded to its point.
  share_points-print_share :
      share_points (length (print_share (x, y)) / 88) 0 (print_share (x, y)) ≡ to_point (x, y) ∷ []
  unfolding share_points
  share_points-print_share = rw (
    length-print_share (x, y) (hx, hy),
    take_all (print_share (x, y)) 88 (length-print_share (x, y) (hx, hy)),
    x_read,
    y_read,
  )

pub decode_shares-print_share :
    (points : List (ℕ × ℕ))
    → All IsResidue points
    → decode_shares (map print_share points) ≡ ok (map (λ point. to_point point ∷ []) points)
unfolding decode_shares
decode_shares-print_share [] _ = refl
decode_shares-print_share ((x, y) ∷ points) ((hx, hy), h) = rw (
  is_valid_share-print_share x y hx hy,
  share_points-print_share x y hx hy,
  decode_shares-print_share points h,
)

part-zero :
    (points : List (ℕ × ℕ))
    → part 0 (map (λ point. to_point point ∷ []) points) ≡ ok (map to_point points)
unfolding part
part-zero [] = refl
part-zero (point ∷ points) = rw (part-zero points)

pub one_part :
    (points : List (ℕ × ℕ))
    → interpolate_parts 1 0 (map (λ point. to_point point ∷ []) points)
      ≡ ok (interpolate default_prime (map to_point points) ∷ [])
unfolding interpolate_parts
one_part points = rw (part-zero points)

not_above : {w : ℕ} (n : ℕ) → n ≤ w → ltb w n ≡ false
not_above n h = ground arith

merge_digits-one :
    (n : ℕ) → n < 2 ^ 256 → merge_digits (n ∷ []) ≡ some (pad_zeros 64 (format_hex (pos n)))
unfolding merge_digits
merge_digits-one n h =
    rw (not_above (length (format_hex (pos n))) (length-format_hex n 63 h), append-nil)

-- A number below 2^256 is merged into its 32 bytes, without the zeros at their end.
pub merge_int_to_byte-one :
    (n : ℕ)
    → n < 2 ^ 256
    → (bs : Bytes) × (merge_int_to_byte (n ∷ []) ≡ some (trim_right bs))
      × (length bs ≡ 32)
      × (big_endian bs 0 ≡ n)
unfolding merge_int_to_byte
merge_int_to_byte-one n h =
    let (ds, text, digits, value, count) = padded n 63 h in
    let (bs, e, bytes, size, same) = decoded 32 ds count digits in
    (bs, rw (merge_digits-one n h, merge_int_to_byte, text, e), size, same 0 ∙ value)

-- Shares of one part, at least as many as the polynomial has coefficients, that `evaluatePolynomial`
-- computed at coordinates below the prime whose differences have inverses modulo the prime, are
-- combined without an error to the 32 bytes of the polynomial's constant term, less the zero
-- bytes at their end.
pub combine-print_share :
    (c : ℕ) (cs : List ℕ) (points : List (ℕ × ℕ))
    → c < default_prime
    → suc (length cs) ≤ length (xs_of points)
    → Apart default_prime (xs_of points)
    → All IsResidue points
    → All (λ point. evaluate_polynomial default_prime (c ∷ cs) point.0 ≡ some point.1) points
    → (bs : Bytes) × (combine (map print_share points) ≡ ok (trim_right bs))
      × (length bs ≡ 32)
      × (big_endian bs 0 ≡ c)
unfolding combine
combine-print_share c cs [] small size apart residues on = absurd (omega arith)
combine-print_share c cs (point ∷ points) small size apart residues on =
    let (bs, merged, count, value) = merge_int_to_byte-one c (fits c small) in
    (
      bs,
      rw (
        decode_shares-print_share (point ∷ points) residues,
        one_part (point ∷ points),
        interpolate-evaluate_polynomial c cs (point ∷ points) small size apart on,
        merged,
      ),
      count,
      value,
    )
