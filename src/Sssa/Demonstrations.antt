-- ===== src/Sssa/Demonstrations.antt =====
-- The runs at the end of sssa/threshold.go, `TestLibraryCombine1` to `TestLibraryCombine4`, as what
-- they print last; `none` is a panic. The calls of `crypto` and `keystore` are parameters.
use address_verification.Base.{
  ◌≡◌, ap, ℕ, [], ◌∷◌, ◌++◌, Option, none, some, Bytes, codes, drop, take, arith,
}
use address_verification.Base.Int.{ℤ, pos}
use address_verification.Base.Outcome.{Outcome, ok, err}
use address_verification.Sssa.Field.{default_prime}
use address_verification.Sssa.Hex.{hex_encode, set_string}
use address_verification.Sssa.Base64.{to_base64, from_base64}
use address_verification.Sssa.Combine.{Error, combine}
use address_verification.Sssa.Keys.{generate_priv_key, get_public_key}
use address_verification.Sssa.Pubs.{Curve, combine_ecdsa_pubs}
use address_verification.Sssa.PubFirst.{Crypto, combine_pub_first}
use address_verification.Sssa.PubFirst.Agreement.{Adds, combine_pub_first-combine}

abbrev pub first_share : Bytes
first_share =
    codes "AAAAAAAAAAAAAAAAAAAAAAAAAAAAAAAAAAAAAAAAAAE=Uv8TKu9w935MhVhKudhksXv1QQO_KijTVQ5yCWQNaL4="

abbrev pub second_share : Bytes
second_share =
    codes "AAAAAAAAAAAAAAAAAAAAAAAAAAAAAAAAAAAAAAAAAAI=dwOoQA6zD-kc0KQHm7srZ7sePn_pkOIalCZGbTD1WrI="

-- The text that is left beside an error, which is printed.
abbrev printed : Outcome Error Bytes → Option Bytes
printed (ok combined) = some combined
printed (err _) = some []
printed Outcome.panic = none

-- The text as a private key: it is printed as a number in hexadecimal and read again.
unfoldable pub public_of_text : {P : Type 0} → (ℕ → P) → ℕ → Bytes → Option P
public_of_text base_mult order combined = elim (set_string (hex_encode combined)) [
  | none ↦ none
  | some n ↦ some (generate_priv_key base_mult order (pos n)).public_key
]

abbrev then_key : {P : Type 0} → (ℕ → P) → ℕ → Option Bytes → Option P
then_key base_mult order none = none
then_key base_mult order (some combined) = public_of_text base_mult order combined

abbrev then_scan :
    {Q S : Type 0} → Option (Q × S) → (Bytes → S → Q) → Option Bytes → Option (Option (Q × Q))
then_scan pair scan none = none
then_scan none scan (some combined) = some none
then_scan (some (a1, s1)) scan (some combined) = some (some (scan combined s1, a1))

abbrev pub a_priv : ℕ
a_priv = 103063865454403764063064959919290620142763204660077778430281504838313269282579

-- The number that the bytes of a `big.Int` spell: its absolute value.
abbrev magnitude : ℤ → ℕ
magnitude (pos n) = n
magnitude (ℤ.negsuc n) = ℕ.suc n

module _ {P : Type 0} where
  unfoldable pub test_library_combine1 : Crypto P → Option P
  test_library_combine1 crypto =
      then_key crypto.base_mult crypto.order (printed (combine (first_share ∷ second_share ∷ [])))

  unfoldable pub test_library_combine2 : Crypto P → Option P
  test_library_combine2 crypto =
      then_key crypto.base_mult crypto.order
        (printed (combine_pub_first crypto (first_share ∷ second_share ∷ [])))

  -- Where the order of the curve is the prime and adding public keys does not panic, the two runs
  -- print the same key.
  test_library_combine2-test_library_combine1 :
      (crypto : Crypto P)
      → crypto.order ≡ default_prime
      → Adds crypto
      → test_library_combine2 crypto ≡ test_library_combine1 crypto
  unfolding test_library_combine1 test_library_combine2
  test_library_combine2-test_library_combine1 crypto order adds =
      ap (λ o. then_key crypto.base_mult crypto.order (printed o))
        (combine_pub_first-combine crypto first_share second_share [] order adds (omega arith))

  -- The text of a share of a public key, whose coordinates are `coords`.
  unfoldable pub pub_text : (P → ℤ × ℤ) → Bytes → P → Bytes
  pub_text coords number key = let (x, y) = coords key in number ++ to_base64 x ++ to_base64 y

  unfoldable pub test_library_combine3 : Crypto P → Curve P → (P → ℤ × ℤ) → Option P
  unfolding pub_text get_public_key
  test_library_combine3 crypto curve coords =
      let pubkey1 =
        (get_public_key crypto.base_mult crypto.order (from_base64 (drop 44 first_share))).0 in
      let pubkey2 =
        (get_public_key crypto.base_mult crypto.order (from_base64 (drop 44 second_share))).0 in
      then_key crypto.base_mult crypto.order (
        printed (
          combine_ecdsa_pubs curve (
            pub_text coords (take 44 first_share) pubkey1
            ∷ pub_text coords (take 44 second_share) pubkey2
            ∷ [])))

  -- What the scan gives, and the first half of the address, `pair`, if that can be read.
  unfoldable pub test_library_combine4 :
      {Q S : Type 0}
      → Crypto P
      → Curve P
      → (P → ℤ × ℤ)
      → (P → ℕ → P)
      → Option (Q × S)
      → (Bytes → S → Q)
      → Option (Option (Q × Q))
  unfolding pub_text get_public_key
  test_library_combine4 crypto curve coords scalar_mult pair scan_pub_shares_a1 =
      let a_pub = (get_public_key crypto.base_mult crypto.order (pos a_priv)).0 in
      let share_pub1 = scalar_mult a_pub (magnitude (from_base64 (drop 44 first_share))) in
      let share_pub2 = scalar_mult a_pub (magnitude (from_base64 (drop 44 second_share))) in
      then_scan pair scan_pub_shares_a1 (
        printed (
          combine_ecdsa_pubs curve (
            pub_text coords (take 44 first_share) share_pub1
            ∷ pub_text coords (take 44 second_share) share_pub2
            ∷ [])))
