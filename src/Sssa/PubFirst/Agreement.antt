-- ===== src/Sssa/PubFirst/Agreement.antt =====
-- `CombinePubFirst` returns what `Combine` returns.
use address_verification.Base.{
  ℕ, zero, suc, ◌+◌, ◌<◌, ◌≤◌, ◌≡◌, inl, refl, ap, List, ◌∷◌, map, some, Bool, true, false, not,
  if◌then◌else◌, ◌/◌, arith, Bytes, length, get_elem?,
}
use address_verification.Base.Outcome.{Outcome, ok, err, panic, ◌>>=◌, or_panic}
use address_verification.Sssa.Field.{default_prime}
use address_verification.Sssa.Combine.{
  Error, Point, share_points, decode_shares, is_valid_share, interpolate_parts, combine,
}
use address_verification.Sssa.Text.{merge_int_to_byte}
use address_verification.Sssa.PubFirst.{Crypto, pub_first_parts, add_first_two, combine_pub_first}
use address_verification.Sssa.PubFirst.Parts.{Agrees, Agrees-pub_first_parts}

-- The addition of public keys does not panic.
abbrev pub Adds : {P : Type 0} → Crypto P → Type 0
Adds {P} crypto =
    (a b : ℕ) → (sum : P) × (crypto.add (crypto.base_mult a) (crypto.base_mult b) ≡ some sum)

-- The last steps.
finish_lem :
    {P : Type 0} (crypto : Crypto P) (parts : Outcome Error (List P × List ℕ))
    (parts₁ : Outcome Error (List ℕ))
    → Adds crypto
    → Agrees crypto.base_mult parts parts₁
    → (do
      parts ← parts
      res ← or_panic (add_first_two crypto parts.0)
      or_panic (merge_int_to_byte parts.1))
      ≡ (do secret ← parts₁; or_panic (merge_int_to_byte secret))
unfolding add_first_two
finish_lem crypto (ok (keys, parts)) parts₁ adds (e, (a, b, rest, two_keys)) =
    let (sum, added) = adds a b in rw (e, two_keys, added, add_first_two) refl
finish_lem crypto (err e) parts₁ adds same = rw same refl
finish_lem crypto panic parts₁ adds same = rw same refl

-- On decoded shares.
decoded_lem :
    {P : Type 0} (crypto : Crypto P) (s t : List Point) (secrets : List (List Point))
    → crypto.order ≡ default_prime
    → Adds crypto
    → 0 < length s
    → (do
      parts ←
          pub_first_parts crypto
            (length s)
            0
            (s ∷ t ∷ secrets)
            (map (λ _. crypto.nil_key) (s ∷ t ∷ secrets))
      res ← or_panic (add_first_two crypto parts.0)
      or_panic (merge_int_to_byte parts.1))
      ≡ (do
        secret ← interpolate_parts (length s) 0 (s ∷ t ∷ secrets)
        or_panic (merge_int_to_byte secret))
decoded_lem crypto s t secrets h adds long =
    finish_lem crypto _ _ adds
      (Agrees-pub_first_parts crypto (length s) 0 s t secrets _ h (inl long))

length-share_points : (count j : ℕ) (share : Bytes) → length (share_points count j share) ≡ count
unfolding share_points
length-share_points zero j share = refl
length-share_points (suc count) j share = ap suc (length-share_points count (j + 1) share)

-- How two shares or more are decoded: with the points of the first in front, or not.
data Decoding (s : List Point) : Outcome Error (List (List Point)) → Type 0 where
  stopped : (e : Error) → Decoding s (err e)
  crashed : Decoding s panic
  decoded : (t : List Point) (secrets : List (List Point)) → Decoding s (ok (s ∷ t ∷ secrets))

Decoding-chain :
    (s t : List Point) (invalid invalid₁ : Bool) (e : Error) (r : Outcome Error (List (List Point)))
    → Decoding s (
        if invalid then err e else do
          secrets ← (if invalid₁ then err e else do secrets ← r; ok (t ∷ secrets))
          ok (s ∷ secrets))
Decoding-chain s t true b e r = stopped e
Decoding-chain s t false true e r = stopped e
Decoding-chain s t false false e (ok secrets) = decoded t secrets
Decoding-chain s t false false e (err e₁) = stopped e₁
Decoding-chain s t false false e panic = crashed

Decoding-decode_shares :
    (share share₁ : Bytes) (shares : List Bytes)
    → Decoding (share_points (length share / 88) 0 share) (decode_shares (share ∷ share₁ ∷ shares))
unfolding decode_shares
Decoding-decode_shares share share₁ shares =
    Decoding-chain _ _ (not (is_valid_share share)) (not (is_valid_share share₁)) _
      (decode_shares shares)

-- What is done with the decoded shares.
decoding_lem :
    {P : Type 0} (crypto : Crypto P) (s : List Point) (r : Outcome Error (List (List Point)))
    → Decoding s r
    → crypto.order ≡ default_prime
    → Adds crypto
    → 0 < length s
    → (do
      secrets ← r
      first ← or_panic (get_elem? secrets 0)
      parts ← pub_first_parts crypto (length first) 0 secrets (map (λ _. crypto.nil_key) secrets)
      res ← or_panic (add_first_two crypto parts.0)
      or_panic (merge_int_to_byte parts.1))
      ≡ (do
        secrets ← r
        first ← or_panic (get_elem? secrets 0)
        secret ← interpolate_parts (length first) 0 secrets
        or_panic (merge_int_to_byte secret))
decoding_lem crypto s _ (stopped e) h adds long = refl
decoding_lem crypto s _ crashed h adds long = refl
decoding_lem crypto s _ (decoded t secrets) h adds long = decoded_lem crypto s t secrets h adds long

-- Where the order of the curve is the prime and adding public keys does not panic, two shares or
-- more, the first of at least 88 bytes, give what `Combine` gives, errors and panics included.
pub combine_pub_first-combine :
    {P : Type 0} (crypto : Crypto P) (share share₁ : Bytes) (shares : List Bytes)
    → crypto.order ≡ default_prime
    → Adds crypto
    → 88 ≤ length share
    → combine_pub_first crypto (share ∷ share₁ ∷ shares) ≡ combine (share ∷ share₁ ∷ shares)
unfolding combine_pub_first combine
combine_pub_first-combine crypto share share₁ shares h adds long =
    decoding_lem crypto _ _ (Decoding-decode_shares share share₁ shares) h adds
      (omega (arith, length-share_points (length share / 88) 0 share))
