-- ===== src/Account/Transaction/Tests.antt =====
-- A transaction through JSON, with a codec that prints the fields one behind the other.
use address_verification.Base.{
  ℕ, zero, suc, ◌+◌, ◌≡◌, inl, refl, [], ◌∷◌, Option, none, some, Bool, true, false, Bytes, ltb,
  if◌then◌else◌,
}
use address_verification.Base.Outcome.{Outcome, ok, err}
use address_verification.Account.Transaction.{
  TxData, Transaction, uncached, transaction_hash, unmarshal_json, recovery_byte, is_protected,
  invalid_sig,
}
use address_verification.Account.Transaction.Codec.{marshal_json, unmarshal_json-marshal_json}

abbrev tag : Option ℕ → ℕ
tag none = 0
tag (some a) = 1

abbrev content : Option ℕ → ℕ
content none = 0
content (some a) = a

abbrev option_of : ℕ → ℕ → Option ℕ
option_of zero a = none
option_of (suc n) a = some a

abbrev print : TxData ℕ ℕ → Outcome Bool Bytes
print d = ok (
    d.account_nonce
    ∷ d.price
    ∷ d.gas_limit
    ∷ tag d.recipient
    ∷ content d.recipient
    ∷ d.amount
    ∷ d.v
    ∷ d.r
    ∷ d.s
    ∷ tag d.hash
    ∷ content d.hash
    ∷ d.payload)

abbrev parse : Bytes → Outcome Bool (TxData ℕ ℕ)
parse (nonce ∷ price ∷ gas ∷ t ∷ to ∷ amount ∷ v ∷ r ∷ s ∷ u ∷ hash ∷ payload) = ok (record {
  account_nonce = nonce;
  price = price;
  gas_limit = gas;
  recipient = option_of t to;
  amount = amount;
  payload = payload;
  v = v;
  r = r;
  s = s;
  hash = option_of u hash;
})
parse _ = err false

abbrev sum_hash : TxData ℕ ℕ → ℕ
sum_hash d = 1000 + d.account_nonce + d.price

abbrev is_valid : ℕ → ℕ → ℕ → Bool
is_valid v r s = ltb v 2

abbrev signed : Transaction ℕ ℕ
signed = uncached (record {
  account_nonce = 7;
  price = 2;
  gas_limit = 21;
  recipient = some 99;
  amount = 5;
  payload = 1 ∷ 2 ∷ [];
  v = 28;
  r = 11;
  s = 12;
  hash = none;
})

-- The text of the transaction, and the data that it is read as.
abbrev signed_bytes : Bytes
signed_bytes = 7 ∷ 2 ∷ 21 ∷ 1 ∷ 99 ∷ 5 ∷ 28 ∷ 11 ∷ 12 ∷ 1 ∷ 1009 ∷ 1 ∷ 2 ∷ []

abbrev read_back : Transaction ℕ ℕ
read_back = uncached (record signed.data_of { hash = some 1009 })

unmarshal_json-marshal_json_example :
    ((marshal_json print sum_hash signed).0 ≡ ok signed_bytes)
    × ((marshal_json print sum_hash signed).1.data_of ≡ signed.data_of)
    × ((marshal_json print sum_hash signed).1.cached_hash ≡ some 1009)
    × (unmarshal_json parse (λ v. v) is_valid signed_bytes
        ≡ (if is_valid (recovery_byte (λ v. v) 28) 11 12 then ok read_back else err invalid_sig))
    × ((transaction_hash sum_hash read_back).0 ≡ (transaction_hash sum_hash signed).0)
    × ((marshal_json print sum_hash read_back).0 ≡ ok signed_bytes)
unmarshal_json-marshal_json_example =
    unmarshal_json-marshal_json print parse sum_hash (λ v. v) is_valid signed signed_bytes refl refl
      refl (inl refl)

signed_lem : is_valid (recovery_byte (λ v. v) 28) 11 12 ≡ true
unfolding recovery_byte is_protected
signed_lem = refl
