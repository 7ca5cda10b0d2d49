-- ===== src/Sssa/PubFirst.antt =====
-- `CombinePubFirst` of sssa/sssa.go: `Combine`, with the public keys of the terms. The curve is a
-- parameter, on points whose coordinates may be nil. The constants that the code prints on the way
-- are left out.
pub mod Parts
pub mod Agreement
mod Tests
use address_verification.Base.{
  ℕ, zero, suc, ◌+◌, ◌%◌, List, [], ◌∷◌, map, Option, none, some, Bytes, length, get_elem?,
}
use address_verification.Base.Int.{ℤ, pos, ◌*ℤ◌, emod}
use address_verification.Base.Outcome.{Outcome, ok, err, panic, ◌>>=◌, or_panic}
use address_verification.Sssa.Field.{default_prime, mod_inverse}
use address_verification.Sssa.Text.{merge_int_to_byte}
use address_verification.Sssa.Combine.{Error, Point, decode_shares, product_loop, part, abscissae}
use address_verification.Sssa.Keys.{get_public_key}

-- The calls of `crypto`: the order of `S256()`, `ScalarBaseMult`, and `Add`, which is `none` for a
-- panic. Coordinates that may be nil are in `P`, and `nil_key` is the key of a fresh array.
pub record Crypto (P : Type 0) : Type 0 where
  pub order : ℕ
  pub base_mult : ℕ → P
  pub add : P → P → Option P
  pub nil_key : P

-- The LPI sum loop, over the points from number i on: the public keys and the sum.
unfoldable pub pub_first_loop :
    {P : Type 0} → Crypto P → ℕ → List ℤ → ℕ → List Point → ℕ → List P × ℕ
unfolding get_public_key
pub_first_loop crypto prime xs i [] secret = ([], secret)
pub_first_loop crypto prime xs i ((origin, originy) ∷ points) secret =
    let (numerator, denominator) = product_loop prime origin i 0 xs (1, 1) in
    let working =
      emod (originy *ℤ pos numerator *ℤ pos (mod_inverse prime (pos denominator))) prime in
    let (secret_pub, left) = get_public_key crypto.base_mult crypto.order (pos working) in
    let (secret_pubs, sum) =
      pub_first_loop crypto prime xs (i + 1) points ((secret + left) % prime) in
    (secret_pub ∷ secret_pubs, sum)

-- The parts j, …, j + count - 1: each overwrites the public keys of the one before.
unfoldable pub pub_first_parts :
    {P : Type 0} → Crypto P → ℕ → ℕ → List (List Point) → List P → Outcome Error (List P × List ℕ)
unfolding part pub_first_loop
pub_first_parts crypto zero j secrets secret_pubs = ok (secret_pubs, [])
pub_first_parts crypto (suc count) j secrets secret_pubs = do
  points ← part j secrets
  rest ←
      pub_first_parts crypto count (j + 1) secrets
        (pub_first_loop crypto default_prime (abscissae points) 0 points 0).0
  ok (rest.0, (pub_first_loop crypto default_prime (abscissae points) 0 points 0).1 ∷ rest.1)

-- The sum of the first two public keys, which is printed.
unfoldable pub add_first_two : {P : Type 0} → Crypto P → List P → Option P
add_first_two crypto [] = none
add_first_two crypto (p ∷ []) = none
add_first_two crypto (p ∷ q ∷ secret_pubs) = crypto.add p q

unfoldable pub combine_pub_first : {P : Type 0} → Crypto P → List Bytes → Outcome Error Bytes
unfolding decode_shares pub_first_parts add_first_two
combine_pub_first crypto shares = do
  secrets ← decode_shares shares
  first ← or_panic (get_elem? secrets 0)
  parts ← pub_first_parts crypto (length first) 0 secrets (map (λ _. crypto.nil_key) secrets)
  res ← or_panic (add_first_two crypto parts.0)
  or_panic (merge_int_to_byte parts.1)
