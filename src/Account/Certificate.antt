-- ===== src/Account/Certificate.antt =====
-- `CheckCertificateSig` and `GetTxAuthenticationLevel` of ABaccount/transaction.go: three byte
-- strings are found by their positions in the payload, and are handed to the cryptographic checks.
-- The positions and lengths are `uint16`: their sums wrap around.
pub mod Layout
use address_verification.Base.{
  ℕ, ◌+◌, ◌*◌, ◌%◌, ◌^◌, List, [], ◌∷◌, Option, none, some, Bool, true, false, not, leb, ◌&&◌,
  if◌then◌else◌, Bytes, length, take, drop, slice, get_elem?,
}
use address_verification.Base.Outcome.{Outcome, ok, err, panic, ◌>>=◌, or_panic}

pub data CertificateError : Type 0 where
  address_mismatch illegal_certificate : CertificateError

-- `data[from:to]` of a slice, which panics out of range.
unfoldable pub slice_or_panic : Bytes → ℕ → ℕ → Option Bytes
slice_or_panic bytes from to =
    if leb from to && leb to (length bytes) then some (slice bytes from to) else none

-- `binary.BigEndian.Uint16`, which reads two bytes.
unfoldable pub uint16 : Bytes → Option ℕ
uint16 (high ∷ low ∷ rest) = some (high * 256 + low)
uint16 (high ∷ []) = none
uint16 [] = none

-- A sum of two `uint16`.
unfoldable pub add16 : ℕ → ℕ → ℕ
add16 a b = (a + b) % 2 ^ 16

-- `binary.BigEndian.Uint16(tx.Data()[from:to])`.
unfoldable pub read_uint16 : Bytes → ℕ → ℕ → Outcome CertificateError ℕ
read_uint16 payload from to = do
  bytes ← or_panic (slice_or_panic payload from to)
  or_panic (uint16 bytes)

-- The public key, the signature and the certificate in the payload.
unfoldable pub certificate_fields : Bytes → Outcome CertificateError (Bytes × Bytes × Bytes)
certificate_fields payload = do
  pub_position ← read_uint16 payload 34 36
  sign_position ← read_uint16 payload 66 68
  ca_position ← read_uint16 payload 98 100
  pub_len ← read_uint16 payload (add16 pub_position 34) (add16 pub_position 36)
  sign_len ← read_uint16 payload (add16 sign_position 34) (add16 sign_position 36)
  ca_len ← read_uint16 payload (add16 ca_position 34) (add16 ca_position 36)
  public ←
      or_panic
        (slice_or_panic payload (add16 pub_position 36) (add16 (add16 pub_position 36) pub_len))
  sign ←
      or_panic
        (slice_or_panic payload (add16 sign_position 36) (add16 (add16 sign_position 36) sign_len))
  ca ←
      or_panic (slice_or_panic payload (add16 ca_position 36) (add16 (add16 ca_position 36) ca_len))
  ok (public, sign, ca)

-- What the function calls outside the repository: `hexutil.Decode`, whose error is dropped,
-- `crypto.ToECDSAPub`, whose result may be nil, `crypto.PubkeyToAddress`, the comparison of two
-- addresses, and whether `crypto.CheckUserCertStandard` succeeds.
pub record Crypto (A P : Type 0) : Type 0 where
  pub hex_decode : Bytes → Bytes
  pub to_ecdsa_pub : Bytes → Option P
  pub pubkey_to_address : P → A
  pub same_address : A → A → Bool
  pub check_user_cert : Bytes → A → Bytes → Bool

unfoldable pub check_certificate_sig :
    {A P : Type 0} → Crypto A P → Bytes → A → Outcome CertificateError (Unit {0})
check_certificate_sig crypto payload from = do
  (public, sign, ca) ← certificate_fields payload
  key ← or_panic (crypto.to_ecdsa_pub (crypto.hex_decode public))
  if not (crypto.same_address (crypto.pubkey_to_address key) from)
      then err address_mismatch
      else if not (crypto.check_user_cert ca from sign)
      then err illegal_certificate
      else ok tt

-- `GetTxAuthenticationLevel`, which panics on a payload of less than 36 bytes.
unfoldable pub get_tx_authentication_level : Bytes → Option ℕ
get_tx_authentication_level payload = get_elem? payload 35
