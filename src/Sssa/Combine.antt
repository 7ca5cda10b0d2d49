-- ===== src/Sssa/Combine.antt =====
-- `IsValidShare` and `Combine` of sssa/sssa.go: shares are decoded and the secret is interpolated.
pub mod Loops
pub mod Interpolation
pub mod Recovery
use address_verification.Base.{
  ℕ, zero, suc, ◌+◌, ◌*◌, ◌/◌, ◌%◌, List, [], ◌∷◌, ◌++◌, map, Option, none, some, Bool, true, false,
  not, ◌&&◌, ◌||◌, ltb, ◌==◌, if◌then◌else◌, Bytes, length, take, drop, slice, get_elem?,
}
use address_verification.Base.Int.{ℤ, pos, negsuc, ◌+ℤ◌, ◌-ℤ◌, ◌*ℤ◌, emod, ltb_ℤ}
use address_verification.Base.Outcome.{Outcome, ok, err, panic, ◌>>=◌, or_panic}
use address_verification.Sssa.Field.{default_prime, mod_inverse}
use address_verification.Sssa.Base64.{from_base64}
use address_verification.Sssa.Text.{merge_int_to_byte}

pub data Error : Type 0 where
  cannot_require_more_shares one_of_the_shares_is_invalid : Error

-- An (x, y) pair of a share.
abbrev pub Point : Type 0
Point = ℤ × ℤ

-- The blocks j, …, j + count - 1 of 44 characters are numbers from 0 to the prime.
unfoldable pub valid_blocks : ℕ → ℕ → Bytes → Bool
valid_blocks zero j candidate = true
valid_blocks (suc count) j candidate =
    let rest = valid_blocks count (j + 1) candidate in
    let decode = from_base64 (slice candidate (j * 44) ((j + 1) * 44)) in
    if ltb_ℤ decode (pos 0) || ltb_ℤ (pos default_prime) decode then false else rest

unfoldable pub is_valid_share : Bytes → Bool
unfolding valid_blocks
is_valid_share candidate =
    if not (length candidate % 88 == 0) && not (length candidate % 132 == 0)
    then false
    else valid_blocks (length candidate / 44) 0 candidate

-- The pairs j, …, j + count - 1 of a share.
unfoldable pub share_points : ℕ → ℕ → Bytes → List Point
share_points zero j share = []
share_points (suc count) j share =
    let cshare = slice share (j * 88) ((j + 1) * 88) in
    (from_base64 (slice cshare 0 44), from_base64 (drop 44 cshare))
    ∷ share_points count (j + 1) share

unfoldable pub decode_shares : List Bytes → Outcome Error (List (List Point))
unfolding is_valid_share share_points
decode_shares [] = ok []
decode_shares (share ∷ shares) =
    let points = share_points (length share / 88) 0 share in
    let rest = decode_shares shares in
    if not (is_valid_share share)
    then err one_of_the_shares_is_invalid
    else do secrets ← rest; ok (points ∷ secrets)

-- The LPI product loop of point i, over the x-coordinates from number k on.
unfoldable pub product_loop : ℕ → ℤ → ℕ → ℕ → List ℤ → ℕ × ℕ → ℕ × ℕ
product_loop prime origin i k [] acc = acc
product_loop prime origin i k (current ∷ xs) (numerator, denominator) =
    let negative = current *ℤ negsuc 0 in
    let added = origin -ℤ current in
    product_loop prime origin i (k + 1) xs (
      if k == i
      then (numerator, denominator)
      else (emod (pos numerator *ℤ negative) prime, emod (pos denominator *ℤ added) prime))

-- The LPI sum loop, over the points from number i on; `xs` are the x-coordinates of all points.
unfoldable pub sum_loop : ℕ → List ℤ → ℕ → List Point → ℕ → ℕ
sum_loop prime xs i [] secret = secret
sum_loop prime xs i ((origin, originy) ∷ points) secret =
    let (numerator, denominator) = product_loop prime origin i 0 xs (1, 1) in
    let working =
      emod (originy *ℤ pos numerator *ℤ pos (mod_inverse prime (pos denominator))) prime in
    sum_loop prime xs (i + 1) points ((secret + working) % prime)

abbrev pub abscissae : List Point → List ℤ
abscissae = map (λ point. point.0)

-- One part of the secret.
unfoldable pub interpolate : ℕ → List Point → ℕ
unfolding sum_loop product_loop
interpolate prime points = sum_loop prime (abscissae points) 0 points 0

-- `secrets[i][j]` for every i.
unfoldable pub part : ℕ → List (List Point) → Outcome Error (List Point)
part j [] = ok []
part j (share ∷ secrets) = do
  point ← or_panic (get_elem? share j)
  points ← part j secrets
  ok (point ∷ points)

-- The parts j, …, j + count - 1 of the secret.
unfoldable pub interpolate_parts : ℕ → ℕ → List (List Point) → Outcome Error (List ℕ)
unfolding part interpolate
interpolate_parts zero j secrets = ok []
interpolate_parts (suc count) j secrets = do
  points ← part j secrets
  rest ← interpolate_parts count (j + 1) secrets
  ok (interpolate default_prime points ∷ rest)

unfoldable pub combine : List Bytes → Outcome Error Bytes
unfolding decode_shares interpolate_parts
combine shares = do
  secrets ← decode_shares shares
  first ← or_panic (get_elem? secrets 0)
  secret ← interpolate_parts (length first) 0 secrets
  or_panic (merge_int_to_byte secret)
