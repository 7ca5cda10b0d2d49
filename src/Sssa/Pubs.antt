-- ===== src/Sssa/Pubs.antt =====
-- `CombineECDSAPubs` of sssa/sssa.go: Lagrange interpolation over points of an elliptic curve. The
-- curve is a parameter.
pub mod Multiples
pub mod Printed
pub mod Recovery
mod Tests
use address_verification.Base.{
  ℕ, zero, suc, ◌+◌, ◌*◌, ◌/◌, ◌%◌, List, [], ◌∷◌, map, Option, none, some, not, if◌then◌else◌,
  Bytes, length, drop, slice, get_elem?,
}
use address_verification.Base.Int.{ℤ, pos}
use address_verification.Base.Outcome.{Outcome, ok, err, panic, ◌>>=◌, or_panic}
use address_verification.Sssa.Field.{default_prime, mod_inverse}
use address_verification.Sssa.Base64.{from_base64}
use address_verification.Sssa.Combine.{
  Error, one_of_the_shares_is_invalid, is_valid_share, product_loop,
}

-- The calls of `crypto` on points `P`: `S256().ScalarMult`, `none` where the result's X is nil,
-- `S256().Add` and `FromECDSAPub`.
pub record Curve (P : Type 0) : Type 0 where
  pub scalar_mult : ℤ → ℤ → ℕ → Option P
  pub add : P → P → P
  pub from_ecdsa_pub : P → Bytes

-- The x-coordinate of a share and the two coordinates of its point.
abbrev pub Triple : Type 0
Triple = ℤ × ℤ × ℤ

-- The triples j, …, j + count - 1 of a share.
unfoldable pub share_triples : ℕ → ℕ → Bytes → List Triple
share_triples zero j share = []
share_triples (suc count) j share =
    let cshare = slice share (j * 132) ((j + 1) * 132) in
    (
      from_base64 (slice cshare 0 44),
      from_base64 (slice cshare 44 88),
      from_base64 (drop 88 cshare),
    )
    ∷ share_triples count (j + 1) share

unfoldable pub decode_pub_shares : List Bytes → Outcome Error (List (List Triple))
decode_pub_shares [] = ok []
decode_pub_shares (share ∷ shares) =
    let triples = share_triples (length share / 132) 0 share in
    let rest = decode_pub_shares shares in
    if not (is_valid_share share)
    then err one_of_the_shares_is_invalid
    else do secrets ← rest; ok (triples ∷ secrets)

-- `secrets[i][j]` for every i.
unfoldable pub pub_part : ℕ → List (List Triple) → Outcome Error (List Triple)
pub_part j [] = ok []
pub_part j (share ∷ secrets) = do
  triple ← or_panic (get_elem? share j)
  triples ← pub_part j secrets
  ok (triple ∷ triples)

-- The scalar of point i among the x-coordinates `xs`.
unfoldable pub pub_weight : ℕ → List ℤ → ℕ → ℤ → ℕ
pub_weight prime xs i origin =
    let (numerator, denominator) = product_loop prime origin i 0 xs (1, 1) in
    numerator * mod_inverse prime (pos denominator) % prime

-- The points of one part times their scalars, from number i on.
unfoldable pub secret_pubs : {P : Type 0} → Curve P → ℕ → List ℤ → ℕ → List Triple → List (Option P)
unfolding pub_weight
secret_pubs curve prime xs i [] = []
secret_pubs curve prime xs i ((origin, origin_x, origin_y) ∷ triples) =
    curve.scalar_mult origin_x origin_y (pub_weight prime xs i origin)
    ∷ secret_pubs curve prime xs (i + 1) triples

-- The parts j, …, j + count - 1: each overwrites the points of the one before; `none` are the nil
-- pointers.
unfoldable pub pub_parts :
    {P : Type 0}
    → Curve P
    → ℕ
    → ℕ
    → List (List Triple)
    → Option (List (Option P))
    → Outcome Error (Option (List (Option P)))
unfolding pub_part secret_pubs
pub_parts curve zero j secrets last = ok last
pub_parts curve (suc count) j secrets last = do
  triples ← pub_part j secrets
  pub_parts curve count (j + 1) secrets
      (some (secret_pubs curve default_prime (map (λ triple. triple.0) triples) 0 triples))

-- The sum of the first two points.
unfoldable pub add_pubs : {P : Type 0} → Curve P → List (Option P) → Outcome Error Bytes
add_pubs curve [] = panic
add_pubs curve (none ∷ pubs) = err one_of_the_shares_is_invalid
add_pubs curve (some p ∷ []) = panic
add_pubs curve (some p ∷ none ∷ pubs) = err one_of_the_shares_is_invalid
add_pubs curve (some p ∷ some q ∷ pubs) = ok (curve.from_ecdsa_pub (curve.add p q))

unfoldable pub combine_ecdsa_pubs : {P : Type 0} → Curve P → List Bytes → Outcome Error Bytes
unfolding decode_pub_shares pub_parts add_pubs
combine_ecdsa_pubs curve shares = do
  secrets ← decode_pub_shares shares
  first ← or_panic (get_elem? secrets 0)
  last ← pub_parts curve (length first) 0 secrets none
  pubs ← or_panic last
  add_pubs curve pubs
