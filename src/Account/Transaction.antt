-- ===== src/Account/Transaction.antt =====
-- `Transaction` and `Message` of ABaccount/transaction.go: construction, replay protection, the hash
-- cache, signing, the cost, and the difference of two lists. Addresses, hashes, signers and codecs
-- stand outside the repository: they are parameters.
pub mod Cache
pub mod Difference
pub mod Replay
pub mod Fields
pub mod Codec
mod Tests
use address_verification.Base.{
  ℕ, ◌+◌, ◌-◌, ◌*◌, ◌%◌, ◌^◌, List, [], ◌∷◌, ◌++◌, map, Option, none, some, Bool, true, false, not,
  ◌&&◌, ltb, ◌==◌, if◌then◌else◌, Bytes,
}
use address_verification.Base.Outcome.{Outcome, ok, err, ◌>>=◌}

-- `txdata` for addresses `A` and hashes `H`; the amounts are `big.Int`, so that nothing wraps around.
pub record TxData (A H : Type 0) : Type 0 where
  pub account_nonce : ℕ
  pub price : ℕ
  pub gas_limit : ℕ
  pub recipient : Option A
  pub amount : ℕ
  pub payload : Bytes
  pub v : ℕ
  pub r : ℕ
  pub s : ℕ
  pub hash : Option H

-- `Transaction`: the data and the caches that are filled on first use.
pub record Transaction (A H : Type 0) : Type 0 where
  pub data_of : TxData A H
  pub cached_hash : Option H
  pub cached_size : Option ℕ
  pub cached_from : Option A

-- A copy of a `big.Int` behind a pointer, 0 where it is nil.
unfoldable pub set_or_zero : Option ℕ → ℕ
set_or_zero none = 0
set_or_zero (some n) = n

-- `&Transaction{data: d}`.
abbrev pub uncached : {A H : Type 0} → TxData A H → Transaction A H
uncached d = record { data_of = d; cached_hash = none; cached_size = none; cached_from = none }

unfoldable pub new_transaction_to :
    {A H : Type 0} → ℕ → Option A → Option ℕ → ℕ → Option ℕ → Bytes → Transaction A H
unfolding set_or_zero
new_transaction_to nonce to amount gas_limit gas_price data_of = uncached (record {
  account_nonce = nonce;
  price = set_or_zero gas_price;
  gas_limit = gas_limit;
  recipient = to;
  amount = set_or_zero amount;
  payload = data_of;
  v = 0;
  r = 0;
  s = 0;
  hash = none;
})

unfoldable pub new_transaction :
    {A H : Type 0} → ℕ → A → Option ℕ → ℕ → Option ℕ → Bytes → Transaction A H
unfolding new_transaction_to
new_transaction nonce to amount gas_limit gas_price data_of =
    new_transaction_to nonce (some to) amount gas_limit gas_price data_of

unfoldable pub new_contract_creation :
    {A H : Type 0} → ℕ → Option ℕ → ℕ → Option ℕ → Bytes → Transaction A H
unfolding new_transaction_to
new_contract_creation nonce amount gas_limit gas_price data_of =
    new_transaction_to nonce none amount gas_limit gas_price data_of

-- `V.BitLen() <= 8` is `V < 256`.
unfoldable pub is_protected : ℕ → Bool
is_protected v = if ltb v 256 then not (v == 27) && not (v == 28) else true

-- The two signers that `deriveSigner` chooses from.
pub data Signer : Type 0 where
  eip155 : ℕ → Signer
  homestead : Signer

unfoldable pub derive_signer : (ℕ → ℕ) → ℕ → Signer
unfolding is_protected
derive_signer derive_chain_id v =
    if not (v == 0) && is_protected v then eip155 (derive_chain_id v) else homestead

-- The signature's parity byte, as `UnmarshalJSON` computes it in a `uint64`.
unfoldable pub recovery_byte : (ℕ → ℕ) → ℕ → ℕ
unfolding is_protected
recovery_byte derive_chain_id v =
    let w = 2 ^ 64 in
    if is_protected v
    then (v % w + (w - 35) + (w - (2 * (derive_chain_id v % w)) % w)) % w % 256
    else (v % w + (w - 27)) % w % 256

pub data JsonError (E : Type 0) : Type 0 where
  decoding : E → JsonError E
  invalid_sig : JsonError E

-- `UnmarshalJSON`: `decode` is the generated codec, `valid` is `crypto.ValidateSignatureValues`
-- with `homestead` false.
unfoldable pub unmarshal_json :
    {A H E : Type 0}
    → (Bytes → Outcome E (TxData A H))
    → (ℕ → ℕ)
    → (ℕ → ℕ → ℕ → Bool)
    → Bytes
    → Outcome (JsonError E) (Transaction A H)
unfolding recovery_byte
unmarshal_json decode derive_chain_id valid input = elim (decode input) [
  | Outcome.ok dec ↦
      if valid (recovery_byte derive_chain_id dec.v) dec.r dec.s
      then ok (uncached dec)
      else err invalid_sig
  | Outcome.err e ↦ err (decoding e)
  | Outcome.panic ↦ Outcome.panic
]

-- `Hash`, with the transaction whose cache it fills; `rlp_hash` hashes the encoded data.
unfoldable pub transaction_hash :
    {A H : Type 0} → (TxData A H → H) → Transaction A H → H × Transaction A H
transaction_hash rlp_hash tx = elim tx.cached_hash [
  | none ↦ let h = rlp_hash tx.data_of in (h, record tx { cached_hash = some h })
  | some h ↦ (h, tx)
]

-- `Size`, with the transaction whose cache it fills; `rlp_size` is the encoded data's length.
unfoldable pub transaction_size :
    {A H : Type 0} → (TxData A H → ℕ) → Transaction A H → ℕ × Transaction A H
transaction_size rlp_size tx = elim tx.cached_size [
  | none ↦ let c = rlp_size tx.data_of in (c, record tx { cached_size = some c })
  | some c ↦ (c, tx)
]

-- `DecodeRLP`: the data is replaced, the size is cached, and the other caches stay. After an error
-- the transaction is not used.
unfoldable pub decode_rlp :
    {A H E : Type 0} → Outcome E (TxData A H) → ℕ → Transaction A H → Outcome E (Transaction A H)
decode_rlp decoded size tx = do
  dec ← decoded
  ok (record tx { data_of = dec; cached_size = some size })

-- `WithSignature`: `values` is the signer's `SignatureValues`.
unfoldable pub with_signature :
    {A H E : Type 0}
    → (Transaction A H → Bytes → Outcome E (ℕ × ℕ × ℕ))
    → Transaction A H
    → Bytes
    → Outcome E (Transaction A H)
with_signature values tx sig = do
  (r, s, v) ← values tx sig
  ok (uncached (record tx.data_of { r = r; s = s; v = v }))

unfoldable pub cost : {A H : Type 0} → Transaction A H → ℕ
cost tx = tx.data_of.price * tx.data_of.gas_limit + tx.data_of.amount

-- `Message`.
pub record Message (A : Type 0) : Type 0 where
  pub to : Option A
  pub sender : A
  pub nonce : ℕ
  pub amount : ℕ
  pub gas_limit : ℕ
  pub gas_price : ℕ
  pub payload : Bytes
  pub check_nonce : Bool

-- `AsMessage`, its message beside the error of `Sender`, which also gives the sender.
unfoldable pub as_message :
    {A H E : Type 0} → (Transaction A H → A × Option E) → Transaction A H → Message A × Option E
as_message sender_of tx =
    let (from, error) = sender_of tx in
    let message : Message _ = record {
      to = tx.data_of.recipient;
      sender = from;
      nonce = tx.data_of.account_nonce;
      amount = tx.data_of.amount;
      gas_limit = tx.data_of.gas_limit;
      gas_price = tx.data_of.price;
      payload = tx.data_of.payload;
      check_nonce = true;
    } in
    (message, error)

-- `TxDifference` over the hashes of the transactions: `remove` holds the hashes of `b`.
unfoldable pub remove_set : {A H : Type 0} → (TxData A H → H) → List (Transaction A H) → List H
unfolding transaction_hash
remove_set rlp_hash [] = []
remove_set rlp_hash (tx ∷ b) = (transaction_hash rlp_hash tx).0 ∷ remove_set rlp_hash b

unfoldable pub has_key : {H : Type 0} → (H → H → Bool) → H → List H → Bool
has_key same h [] = false
has_key same h (k ∷ ks) = let rest = has_key same h ks in if same h k then true else rest

unfoldable pub keep_unremoved :
    {A H : Type 0}
    → (H → H → Bool)
    → (TxData A H → H)
    → List H
    → List (Transaction A H)
    → List (Transaction A H)
unfolding transaction_hash has_key
keep_unremoved same rlp_hash remove [] = []
keep_unremoved same rlp_hash remove (tx ∷ a) =
    let rest = keep_unremoved same rlp_hash remove a in
    if has_key same (transaction_hash rlp_hash tx).0 remove then rest else tx ∷ rest

unfoldable pub tx_difference :
    {A H : Type 0}
    → (H → H → Bool)
    → (TxData A H → H)
    → List (Transaction A H)
    → List (Transaction A H)
    → List (Transaction A H)
unfolding keep_unremoved remove_set
tx_difference same rlp_hash a b = keep_unremoved same rlp_hash (remove_set rlp_hash b) a
