-- ===== src/Account/Tests.antt =====
-- The theorems on transactions, certificates and the key store at inputs that meet their hypotheses.
use mathlib.Core.List.{Memᴰ}
use address_verification.Base.{
  ℕ, ◌+◌, ◌-◌, ◌/◌, ◌≡◌, ◌≢◌, ◌↔◌, ◌⊎◌, refl, [], ◌∷◌, ◌++◌, Option, none, some, true, false, Bool,
  arith, Bytes, replicate, ◌==◌, ==_iff,
}
use address_verification.Base.Outcome.{Outcome, ok, err}
use address_verification.Account.Transaction.{
  TxData, Transaction, uncached, recovery_byte, derive_signer, homestead, eip155, tx_difference,
}
use address_verification.Account.Transaction.Difference.{hash_of, tx_difference_iff}
use address_verification.Account.Transaction.Replay.{IsChainId, recovery_byte-parity}
use address_verification.Account.Authentication.{
  bytes_equal, has_form, is_contract, is_main_authentication, is_sub_authentication,
  is_authentication,
}
use address_verification.Account.Authentication.Kinds.{authentication_kinds}
use address_verification.Account.Certificate.{certificate_fields}
use address_verification.Account.Certificate.Layout.{
  IsArgument, word, certificate_fields-IsArgument,
}
use address_verification.Account.Keystore.{
  Store, locked, empty_store, install, unlock_decrypted, sign_hash, from_library, Step, Reachable,
}
use address_verification.Account.Keystore.Live.{IsValid}
use address_verification.Account.Keystore.Unlocked.{
  unlock_decrypted-IsValid, Reachable-IsValid, sign_hash-Reachable,
}

abbrev payment : ℕ → TxData ℕ ℕ
payment nonce = record {
  account_nonce = nonce;
  price = 2;
  gas_limit = 21;
  recipient = some 99;
  amount = 5;
  payload = [];
  v = 0;
  r = 0;
  s = 0;
  hash = none;
}

-- A hash that tells nonces apart.
abbrev nonce_hash : TxData ℕ ℕ → ℕ
nonce_hash d = 1000 + d.account_nonce

tx_difference_iff_example :
    Memᴰ (uncached (payment 1)) (
      tx_difference ◌==◌ nonce_hash
        (uncached (payment 1) ∷ uncached (payment 2) ∷ [])
        (uncached (payment 2) ∷ []))
    ↔ (Memᴰ (uncached (payment 1)) (uncached (payment 1) ∷ uncached (payment 2) ∷ [])
        × ((other : Transaction ℕ ℕ)
            → Memᴰ other (uncached (payment 2) ∷ [])
            → hash_of ◌==◌ nonce_hash ==_iff other
              ≢ hash_of ◌==◌ nonce_hash ==_iff (uncached (payment 1))))
tx_difference_iff_example =
    tx_difference_iff ◌==◌ nonce_hash ==_iff (uncached (payment 1) ∷ uncached (payment 2) ∷ [])
      (uncached (payment 2) ∷ []) (uncached (payment 1))

chain_id : ℕ → ℕ
chain_id v = (v - 35) / 2

chain_id-IsChainId : IsChainId chain_id
unfolding chain_id
chain_id-IsChainId v h = refl

recovery_byte-parity_example :
    (recovery_byte chain_id 28 ≡ 1)
    × (derive_signer chain_id 28 ≡ homestead)
    × (recovery_byte chain_id 38 ≡ 1)
    × (derive_signer chain_id 38 ≡ eip155 1)
recovery_byte-parity_example =
    recovery_byte-parity chain_id 1 1 chain_id-IsChainId (omega arith) (omega arith)

abbrev is_99 : ℕ → Bool
is_99 a = a == 99

-- A main authentication: the tag and thirty words behind it, and one byte more.
abbrev main_call : Transaction ℕ ℕ
main_call =
    uncached (record (payment 7) { payload = (16 ∷ 201 ∷ 86 ∷ 234 ∷ []) ++ replicate 961 0 })

main_call_lem : is_main_authentication is_99 main_call ≡ some true
unfolding is_main_authentication has_form bytes_equal is_contract
main_call_lem = refl

authentication_kinds_example :
    ((is_sub_authentication is_99 main_call ≡ some false)
      × (is_authentication is_99 main_call ≡ some false))
    ⊎ ((is_main_authentication is_99 main_call ≡ some false)
        × (is_authentication is_99 main_call ≡ some false))
    ⊎ ((is_main_authentication is_99 main_call ≡ some false)
        × (is_sub_authentication is_99 main_call ≡ some false))
authentication_kinds_example = authentication_kinds is_99 main_call

abbrev head_words : Bytes
head_words = 1 ∷ 2 ∷ 3 ∷ 4 ∷ word 96 ++ word 129 ++ word 162

abbrev call : Bytes
call = head_words ++ (word 1 ++ 7 ∷ []) ++ (word 1 ++ 8 ∷ []) ++ (word 1 ++ 9 ∷ [])

call_public : IsArgument call 0 (7 ∷ [])
call_public = record {
  position = 96;
  head = record {
    before = 1 ∷ 2 ∷ 3 ∷ 4 ∷ [];
    after = word 129 ++ word 162 ++ (word 1 ++ 7 ∷ []) ++ (word 1 ++ 8 ∷ []) ++ (word 1 ++ 9 ∷ []);
    bytes_lem = refl;
    length-before = refl;
  };
  tail = record {
    before = head_words;
    after = (word 1 ++ 8 ∷ []) ++ (word 1 ++ 9 ∷ []);
    bytes_lem = refl;
    length-before = refl;
  };
  small = omega arith;
}

call_sign : IsArgument call 1 (8 ∷ [])
call_sign = record {
  position = 129;
  head = record {
    before = 1 ∷ 2 ∷ 3 ∷ 4 ∷ word 96;
    after = word 162 ++ (word 1 ++ 7 ∷ []) ++ (word 1 ++ 8 ∷ []) ++ (word 1 ++ 9 ∷ []);
    bytes_lem = refl;
    length-before = refl;
  };
  tail = record {
    before = head_words ++ word 1 ++ 7 ∷ [];
    after = word 1 ++ 9 ∷ [];
    bytes_lem = refl;
    length-before = refl;
  };
  small = omega arith;
}

call_ca : IsArgument call 2 (9 ∷ [])
call_ca = record {
  position = 162;
  head = record {
    before = 1 ∷ 2 ∷ 3 ∷ 4 ∷ word 96 ++ word 129;
    after = (word 1 ++ 7 ∷ []) ++ (word 1 ++ 8 ∷ []) ++ (word 1 ++ 9 ∷ []);
    bytes_lem = refl;
    length-before = refl;
  };
  tail = record {
    before = head_words ++ (word 1 ++ 7 ∷ []) ++ word 1 ++ 8 ∷ [];
    after = [];
    bytes_lem = refl;
    length-before = refl;
  };
  small = omega arith;
}

certificate_fields-IsArgument_example : certificate_fields call ≡ ok (7 ∷ [], 8 ∷ [], 9 ∷ [])
certificate_fields-IsArgument_example =
    certificate_fields-IsArgument call (7 ∷ []) (8 ∷ []) (9 ∷ []) call_public call_sign call_ca

abbrev opened : Store ℕ
opened = install 5 77 0 empty_store

opened-Reachable : Reachable opened
unfolding unlock_decrypted install
opened-Reachable = Reachable.next_step Reachable.start (Step.unlocks 5 77 0 refl)

opened-IsValid : IsValid opened
opened-IsValid = Reachable-IsValid opened-Reachable

Reachable-IsValid_example : IsValid opened
Reachable-IsValid_example = Reachable-IsValid opened-Reachable

unlock_decrypted-IsValid_example :
    (t : Store ℕ) × (unlock_decrypted 6 78 10 opened ≡ some t)
    × IsValid t
    × (q : ℕ) × (t.unlocked 6 ≡ some q)
unlock_decrypted-IsValid_example = unlock_decrypted-IsValid 6 78 10 opened opened-IsValid

abbrev sign_key : Option ℕ → Outcome Bool ℕ
sign_key none = err false
sign_key (some key) = ok key

sign_hash-Reachable_example :
    (sign_hash sign_key 5 opened ≡ err locked)
    ⊎ ((key : ℕ) × (sign_hash sign_key 5 opened ≡ from_library (sign_key (some key))))
sign_hash-Reachable_example = sign_hash-Reachable sign_key 5 opened-Reachable
