-- ===== src/Account/Transaction/Codec.antt =====
-- `EncodeRLP`, `MarshalJSON` and back, of ABaccount/transaction.go. The codecs are parameters.
use address_verification.Base.{ℕ, ◌≡◌, refl, sym, ap, ◌∙◌, some, Bool, Bytes, if◌then◌else◌}
use address_verification.Base.Outcome.{Outcome, ok, err}
use address_verification.Account.Transaction.{
  TxData, Transaction, uncached, transaction_hash, recovery_byte, unmarshal_json, invalid_sig,
}
use address_verification.Account.Transaction.Cache.{IsCoherent, transaction_hash-IsCoherent}

-- The data that `MarshalJSON` gives to the codec.
abbrev pub hashed : {A H : Type 0} → (TxData A H → H) → TxData A H → TxData A H
hashed rlp_hash d = record d { hash = some (rlp_hash d) }

module _ {A H E : Type 0} where
  -- `EncodeRLP`, which writes what the codec gives.
  unfoldable pub encode_rlp : (TxData A H → Outcome E Bytes) → Transaction A H → Outcome E Bytes
  encode_rlp encode tx = encode tx.data_of

  -- `MarshalJSON`, with the transaction whose hash is cached: the data is a copy.
  unfoldable pub marshal_json :
      (TxData A H → Outcome E Bytes)
      → (TxData A H → H)
      → Transaction A H
      → Outcome E Bytes × Transaction A H
  unfolding transaction_hash
  marshal_json encode rlp_hash tx =
      let (hash, filled) = transaction_hash rlp_hash tx in
      (encode (record tx.data_of { hash = some hash }), filled)

  -- Where the codec reads back what it prints of this transaction with its hash, the hash does not
  -- depend on the field for it, and the hash cache is empty or right: `UnmarshalJSON` of what
  -- `MarshalJSON` gives answers by the check of the signature values alone; it gives the same data
  -- with the hash in its field and empty caches, or `ErrInvalidSig`. The transaction that it gives
  -- has the same `Hash` and is printed as the same text, and the transaction that was printed keeps
  -- its data and has its hash in the cache.
  pub unmarshal_json-marshal_json :
      (encode : TxData A H → Outcome E Bytes) (decode : Bytes → Outcome E (TxData A H))
      (rlp_hash : TxData A H → H) (derive_chain_id : ℕ → ℕ) (valid : ℕ → ℕ → ℕ → Bool)
      (tx : Transaction A H) (bytes : Bytes)
      → encode (hashed rlp_hash tx.data_of) ≡ ok bytes
      → decode bytes ≡ ok (hashed rlp_hash tx.data_of)
      → rlp_hash (hashed rlp_hash tx.data_of) ≡ rlp_hash tx.data_of
      → IsCoherent rlp_hash tx
      → let printed = marshal_json encode rlp_hash tx in
        let read = uncached (hashed rlp_hash tx.data_of) in
        (printed.0 ≡ ok bytes)
        × (printed.1.data_of ≡ tx.data_of)
        × (printed.1.cached_hash ≡ some (rlp_hash tx.data_of))
        × (unmarshal_json decode derive_chain_id valid bytes ≡ (
            if valid (recovery_byte derive_chain_id tx.data_of.v) tx.data_of.r tx.data_of.s
            then ok read
            else err invalid_sig))
        × ((transaction_hash rlp_hash read).0 ≡ (transaction_hash rlp_hash tx).0)
        × ((marshal_json encode rlp_hash read).0 ≡ ok bytes)
  unfolding marshal_json unmarshal_json transaction_hash
  unmarshal_json-marshal_json encode decode rlp_hash derive_chain_id valid tx bytes prints reads
        ignores coherent =
      let (hash_right, kept, cached) = transaction_hash-IsCoherent rlp_hash tx coherent in
      (
        ap (λ (h : H). encode (record tx.data_of { hash = some h })) hash_right ∙ prints,
        kept,
        cached,
        rw (reads, unmarshal_json) refl,
        ignores ∙ sym hash_right,
        ap (λ (h : H). encode (record tx.data_of { hash = some h })) ignores ∙ prints,
      )
