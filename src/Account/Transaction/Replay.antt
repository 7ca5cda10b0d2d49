-- ===== src/Account/Transaction/Replay.antt =====
-- The signers and the parity byte of replay-protected and unprotected signatures.
use address_verification.Base.{ℕ, ◌+◌, ◌-◌, ◌*◌, ◌/◌, ◌^◌, ◌<◌, ◌≤◌, ◌≡◌, ◌∙◌, true, false, arith}
use address_verification.Account.Transaction.{
  is_protected, derive_signer, recovery_byte, eip155, homestead,
}

-- What `deriveChainId` gives.
abbrev pub IsChainId : (ℕ → ℕ) → Type 0
IsChainId derive_chain_id = (v : ℕ) → 35 ≤ v → derive_chain_id v ≡ (v - 35) / 2

protected_35 : (v : ℕ) → 35 ≤ v → is_protected v ≡ true
unfolding is_protected
protected_35 v h = ground arith

unprotected_27 : (parity : ℕ) → parity < 2 → is_protected (27 + parity) ≡ false
unfolding is_protected
unprotected_27 parity h = ground arith

-- Let `deriveChainId` give (v - 35) / 2 from 35 on. A signature with parity `p` has v = 27 + p without replay protection and v = 35 + 2 * chain + p
-- with it: where that is a `uint64`, the byte that is validated is p and the signer is the one the
-- signature was made with.
pub recovery_byte-parity :
    (derive_chain_id : ℕ → ℕ) (chain p : ℕ)
    → IsChainId derive_chain_id
    → p < 2
    → 35 + 2 * chain + p < 2 ^ 64
    → (recovery_byte derive_chain_id (27 + p) ≡ p)
      × (derive_signer derive_chain_id (27 + p) ≡ homestead)
      × (recovery_byte derive_chain_id (35 + 2 * chain + p) ≡ p)
      × (derive_signer derive_chain_id (35 + 2 * chain + p) ≡ eip155 chain)
unfolding recovery_byte derive_signer
recovery_byte-parity derive_chain_id chain p chain_id small fits =
    let id : derive_chain_id (35 + 2 * chain + p) ≡ chain =
      chain_id (35 + 2 * chain + p) (omega arith) ∙ omega arith in
    rw (unprotected_27 p small, protected_35 (35 + 2 * chain + p) (omega arith), id)
      (omega arith, ground arith, omega arith, ground arith)
