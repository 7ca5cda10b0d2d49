-- ===== src/Account/Transaction/Cache.antt =====
-- The hash cache of a transaction.
use address_verification.Base.{ℕ, ◌≡◌, refl, none, some, ◌⊎◌, inl, inr, Bytes}
use address_verification.Base.Outcome.{Outcome, ok}
use address_verification.Account.Transaction.{
  TxData, Transaction, transaction_hash, with_signature, uncached,
}

-- The hash cache is empty or holds the hash of the data.
abbrev pub IsCoherent : {A H : Type 0} → (TxData A H → H) → Transaction A H → Type 0
IsCoherent rlp_hash tx = (tx.cached_hash ≡ none) ⊎ (tx.cached_hash ≡ some (rlp_hash tx.data_of))

module _ {A H : Type 0} (rlp_hash : TxData A H → H) (tx : Transaction A H) where
  hash_empty :
      tx.cached_hash ≡ none
      → transaction_hash rlp_hash tx
        ≡ (rlp_hash tx.data_of, record tx { cached_hash = some (rlp_hash tx.data_of) })
  unfolding transaction_hash
  hash_empty e = rw e refl

  hash_cached : (h : H) → tx.cached_hash ≡ some h → transaction_hash rlp_hash tx ≡ (h, tx)
  unfolding transaction_hash
  hash_cached h e = rw e refl

  -- Where the hash cache is empty or right, the hash is the hash of the data, the data is not
  -- changed, and the cache is right afterwards.
  pub transaction_hash-IsCoherent :
      IsCoherent rlp_hash tx
      → ((transaction_hash rlp_hash tx).0 ≡ rlp_hash tx.data_of)
        × ((transaction_hash rlp_hash tx).1.data_of ≡ tx.data_of)
        × ((transaction_hash rlp_hash tx).1.cached_hash ≡ some (rlp_hash tx.data_of))
  transaction_hash-IsCoherent (inl e) = rw (hash_empty e) (refl, refl, refl)
  transaction_hash-IsCoherent (inr e) = rw (hash_cached _ e) (refl, refl, e)

  -- A signed transaction is a new one with empty caches, which differs from the signed one in v, r
  -- and s only.
  pub with_signature-IsCoherent :
      {E : Type 0} (values : Transaction A H → Bytes → Outcome E (ℕ × ℕ × ℕ)) (sig : Bytes)
      (r s v : ℕ)
      → values tx sig ≡ ok (r, s, v)
      → with_signature values tx sig ≡ ok (uncached (record tx.data_of { r = r; s = s; v = v }))
  unfolding with_signature
  with_signature-IsCoherent values sig r s v e = rw e refl
