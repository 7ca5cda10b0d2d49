-- ===== src/Sssa/Keys.antt =====
-- The keys of sssa/threshold.go: `generatePrivKey`, `getPublicKey`, `multiPub`,
-- `CountSubAccountSharePart`, and `GenerateSubAccountShares` of them. The calls of `crypto` are
-- parameters: `order` is the order of `S256()`, `base_mult` is `ScalarBaseMult` and `scalar_mult`
-- is `ScalarMult`. A scalar's bytes are the number.
use address_verification.Base.{ℕ, Option, none, some}
use address_verification.Base.Int.{ℤ, emod}
use address_verification.Sssa.Deal.{read_selfshares}

pub record PrivateKey (P : Type 0) : Type 0 where
  pub d : ℕ
  pub public_key : P

-- `Mod` writes to the number that the caller holds: `d` is also what is left there.
unfoldable pub generate_priv_key : {P : Type 0} → (ℕ → P) → ℕ → ℤ → PrivateKey P
generate_priv_key base_mult order key =
    let reduced = emod key order in record { d = reduced; public_key = base_mult reduced }

-- The public key, and what is left in the number of the caller.
unfoldable pub get_public_key : {P : Type 0} → (ℕ → P) → ℕ → ℤ → P × ℕ
unfolding generate_priv_key
get_public_key base_mult order key =
    let priv = generate_priv_key base_mult order key in (priv.public_key, priv.d)

unfoldable pub multi_pub : {P : Type 0} → (P → ℕ → P) → ℕ → P → P
multi_pub scalar_mult s a = scalar_mult a s

unfoldable pub count_sub_account_share_part : {P : Type 0} → (P → ℕ → P) → ℕ → P → P
unfolding multi_pub
count_sub_account_share_part scalar_mult share_priv key = multi_pub scalar_mult share_priv key

-- `GenerateSubAccountShares`: the server's own share of the main account's key; `none` is a panic.
unfoldable pub generate_sub_account_shares : {P : Type 0} → (P → ℕ → P) → P → ℕ → Option P
unfolding read_selfshares count_sub_account_share_part
generate_sub_account_shares scalar_mult main_account_pub server_id =
    elim (read_selfshares server_id) [
      | none ↦ none
      | some share_priv ↦
          some (count_sub_account_share_part scalar_mult share_priv main_account_pub)
    ]
