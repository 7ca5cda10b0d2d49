-- ===== src/Account/Transaction/Fields.antt =====
-- What ABaccount/transaction.go tells of a transaction and of a message: the accessors, `NewMessage`,
-- and the order by nonces.
use address_verification.Base.{
  ℕ, ◌≡◌, refl, List, Option, none, some, Bool, true, ltb, Bytes, get_elem?,
}
use address_verification.Account.Transaction.{Transaction, Message, is_protected, as_message}

module _ {A H : Type 0} (tx : Transaction A H) where
  unfoldable pub chain_id : (ℕ → ℕ) → ℕ
  chain_id derive_chain_id = derive_chain_id tx.data_of.v

  unfoldable pub protected : Bool
  unfolding is_protected
  protected = is_protected tx.data_of.v

  -- The accessors copy what they return.
  unfoldable pub data_copy : Bytes
  data_copy = tx.data_of.payload

  unfoldable pub gas : ℕ
  gas = tx.data_of.gas_limit

  unfoldable pub gas_price : ℕ
  gas_price = tx.data_of.price

  unfoldable pub value_of : ℕ
  value_of = tx.data_of.amount

  unfoldable pub nonce : ℕ
  nonce = tx.data_of.account_nonce

  unfoldable pub check_nonce : Bool
  check_nonce = true

  unfoldable pub to : Option A
  to = tx.data_of.recipient

  unfoldable pub raw_signature_values : ℕ × ℕ × ℕ
  raw_signature_values = (tx.data_of.v, tx.data_of.r, tx.data_of.s)

unfoldable pub new_message : {A : Type 0} → A → Option A → ℕ → ℕ → ℕ → ℕ → Bytes → Bool → Message A
new_message from to nonce amount gas_limit gas_price payload check_nonce = record {
  to = to;
  sender = from;
  nonce = nonce;
  amount = amount;
  gas_limit = gas_limit;
  gas_price = gas_price;
  payload = payload;
  check_nonce = check_nonce;
}

-- `GetRlp`, whose error is dropped; `none` is a panic.
unfoldable pub get_rlp :
    {A H : Type 0} → (Transaction A H → Bytes) → List (Transaction A H) → ℕ → Option Bytes
get_rlp encode txs i = elim (get_elem? txs i) [ none ↦ none | some tx ↦ some (encode tx) ]

-- `TxByNonce.Less` of two elements.
unfoldable pub nonce_less : {A H : Type 0} → Transaction A H → Transaction A H → Bool
nonce_less tx tx₁ = ltb tx.data_of.account_nonce tx₁.data_of.account_nonce

-- The message of a transaction is the one that `NewMessage` makes of what its accessors tell.
pub as_message-new_message :
    {A H E : Type 0} (sender_of : Transaction A H → A × Option E) (tx : Transaction A H)
    → as_message sender_of tx ≡ (
      new_message
          (sender_of tx).0
          (to tx)
          (nonce tx)
          (value_of tx)
          (gas tx)
          (gas_price tx)
          (data_copy tx)
          (check_nonce tx),
      (sender_of tx).1,
    )
unfolding as_message new_message to nonce value_of gas gas_price data_copy check_nonce
as_message-new_message sender_of tx = refl
