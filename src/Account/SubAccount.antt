-- ===== src/Account/SubAccount.antt =====
-- The sub-account side of `KeyStore` in ABaccount/keystore.go: the base address made of two public
-- keys, and the operations that read an unlocked key: `GetAprivBaddress`, `GetPublicKey`,
-- `GetABaddr`, `GenRingSignData` and `GenSubRingSignData`. What they print is left out.
pub mod BaseAddress
mod Tests
use address_verification.Base.{
  ℕ, ◌%◌, ◌==◌, List, [], ◌∷◌, ◌++◌, Option, none, some, if◌then◌else◌, Bytes, length, take, drop,
  replicate, arith,
}
use address_verification.Base.Outcome.{Outcome, ok, err}
use address_verification.Account.Wallets.{WalletApi}
use address_verification.Account.Keystore.{Store, StoreError, locked, unlocked_key, from_library}

-- A public key's point.
pub record Point : Type 0 where
  pub x : ℕ
  pub y : ℕ

-- `copy`, which stops at the end of the shorter one.
abbrev pub copy : Bytes → Bytes → Bytes
copy target source = take (length target) source ++ drop (length source) target

-- `padded` is `math.PaddedBigBytes`.
module _ (padded : ℕ → ℕ → Bytes) where
  -- `ECDSAPKCompression`.
  unfoldable pub ecdsa_pk_compression : Point → Bytes
  ecdsa_pk_compression p = (if p.y % 2 == 1 then 3 else 2) ∷ padded p.x 32

  -- `GenerateBaseABaddress`: an array of `size` bytes for the key A, and for the key behind the
  -- constant `B`.
  unfoldable pub generate_base_ab_address : ℕ → Point → Point → Bytes
  generate_base_ab_address size b a =
      let tmp = replicate size 0 in
      copy (take 33 tmp) (ecdsa_pk_compression a) ++ copy (drop 33 tmp) (ecdsa_pk_compression b)

  -- `GetAprivBaddress`; an erased key still has its public key.
  unfoldable pub get_apriv_baddress :
      {K E : Type 0}
      → ℕ
      → Point
      → (Option K → Point)
      → ℕ
      → Store K
      → Outcome (StoreError E) (Bytes × Option K)
  get_apriv_baddress size b public_key address s = elim (unlocked_key address s) [
    | ok key ↦ ok (generate_base_ab_address size b (public_key key), key)
    | err e ↦ err e
    | Outcome.panic ↦ Outcome.panic
  ]

-- `GetPublicKey`: `encode` is the text of the public key.
unfoldable pub get_public_key :
    {K E R : Type 0} → (Option K → R) → ℕ → Store K → Outcome (StoreError E) R
get_public_key encode address s = elim (unlocked_key address s) [
  | ok key ↦ ok (encode key)
  | err e ↦ err e
  | Outcome.panic ↦ Outcome.panic
]

-- `GetABaddr`: `encrypted` is what `getEncryptedKey` gives, and `encode` the text of its address.
unfoldable pub get_ab_addr :
    {K F E R : Type 0} → (F → R) → Outcome E F → ℕ → Store K → Outcome (StoreError E) R
get_ab_addr encode encrypted address s = elim (s.unlocked address) [
  | none ↦ err locked
  | some _ ↦ elim encrypted [
    | ok key ↦ ok (encode key)
    | err _ ↦ err locked
    | Outcome.panic ↦ Outcome.panic
  ]
]

-- What the ring signatures are made of, for texts `R` and public key sets `G`: the message for the
-- sender's address, the text of a private key, the set that the state database gives, and
-- `crypto.GenRingSignData`, with two texts and an error.
pub record RingApi (K R G E : Type 0) : Type 0 where
  pub message : ℕ → R
  pub private_text : Option K → R
  pub one_time_pub_set : G
  pub gen_ring_sign_data : R → R → G → R × R × Option E

module _ {K R G E : Type 0} (api : RingApi K R G E) where
  -- The call in both operations.
  abbrev pub ring_signature : ℕ → Option K → R × R × Option E
  ring_signature from key =
      api.gen_ring_sign_data (api.message from) (api.private_text key) api.one_time_pub_set

  -- `GenRingSignData`.
  unfoldable pub gen_ring_sign_data : ℕ → ℕ → Store K → Outcome (StoreError E) (R × R)
  gen_ring_sign_data address from s = elim (unlocked_key address s) [
    | ok key ↦
        let (ring_sig, key_image, failure) = ring_signature from key in
        elim failure [ none ↦ ok (ring_sig, key_image) | some e ↦ err (StoreError.failed e) ]
    | err e ↦ err e
    | Outcome.panic ↦ Outcome.panic
  ]

  -- `GenSubRingSignData`, which only prints the error.
  unfoldable pub gen_sub_ring_sign_data : ℕ → ℕ → Store K → Outcome (StoreError E) (R × R)
  gen_sub_ring_sign_data address from s = elim (unlocked_key address s) [
    | ok key ↦
        let (ring_sig, key_image, failure) = ring_signature from key in ok (ring_sig, key_image)
    | err e ↦ err e
    | Outcome.panic ↦ Outcome.panic
  ]
