-- ===== src/Account/Directory.antt =====
-- The accounts of `KeyStore` in ABaccount/keystore.go: the operations that find, make, import, change
-- and delete key files, with the cache of accounts and the list of wallets behind them. The
-- directory, the cache and the key files are `keyStore` and `accountCache`, which stand outside the
-- repository: parameters on a state `S`.
pub mod Events
pub mod History
pub mod Listing
mod Tests
use address_verification.Base.{
  ℕ, List, [], ◌++◌, map, Option, none, some, Bool, true, false, if◌then◌else◌, Bytes,
}
use address_verification.Base.Outcome.{Outcome, ok, err}
use address_verification.Account.Wallets.{WalletApi, WalletEvent, refresh_wallets}

-- The calls, for accounts `A`, keys `K`, passphrases `P`, key files `J` and errors `E`.
pub record Outside (S A K P J E : Type 0) : Type 0 where
  pub maybe_reload : S → S
  pub cache_find : A → S → Outcome E A
  pub cache_accounts : S → List A × S
  pub cache_add : A → S → S
  pub cache_delete : A → S → S
  pub has_address : K → S → Bool × S
  pub get_key : A → P → S → Outcome E K
  pub get_encrypted_key : A → S → Outcome E K
  pub store_key : A → K → P → S → Outcome E (Unit {0}) × S
  pub store_new_key : P → S → Outcome E A × S
  pub store_new_ab_key : Bytes → Option K → P → S → Outcome E (Bytes × A) × S
  pub import_pre_sale_key : J → P → S → Outcome E A × S
  pub decrypt_key : J → P → Outcome E K
  pub encrypt_key : K → P → ℕ × ℕ → Outcome E J
  pub key_account : K → S → A
  pub remove : A → S → Outcome E (Unit {0}) × S
  pub passphrase_scrypt : S → Option (ℕ × ℕ)
  pub standard_scrypt : ℕ × ℕ

-- The store: what is outside, the wallets, and the events sent so far.
pub record Directory (S W : Type 0) : Type 0 where
  pub outside : S
  pub wallets : List W
  pub sent : List (WalletEvent W)

pub data DirectoryError (E : Type 0) : Type 0 where
  already_exists : DirectoryError E
  failed : E → DirectoryError E

-- A call on a state `D`, which ends in a state whatever its outcome.
abbrev pub Act : Type 0 → Type 0 → Type 0 → Type 0
Act E D B = D → Outcome E B × D

abbrev pub go_on : {E D B C : Type 0} → (B → Act E D C) → Outcome E B → D → Outcome E C × D
go_on f (ok b) d = f b d
go_on f (err e) d = (err e, d)
go_on f Outcome.panic d = (Outcome.panic, d)

infixl 5 ◌>>=◌ ◌>>◌
abbrev pub ◌>>=◌ : {E D B C : Type 0} → Act E D B → (B → Act E D C) → Act E D C
◌>>=◌ m f d = let (outcome, after) = m d in go_on f outcome after

abbrev pub ◌>>◌ : {E D B C : Type 0} → Act E D B → Act E D C → Act E D C
m >> k = m >>= λ _. k

abbrev pub pure : {E D B : Type 0} → B → Act E D B
pure b d = (ok b, d)

abbrev pub with_failed : {E B : Type 0} → Outcome E B → Outcome (DirectoryError E) B
with_failed (ok b) = ok b
with_failed (err e) = err (failed e)
with_failed Outcome.panic = Outcome.panic

-- A call of what is outside.
abbrev pub call :
    {S W E B : Type 0} → (S → Outcome E B × S) → Act (DirectoryError E) (Directory S W) B
call act d =
    let (outcome, after) = act d.outside in (with_failed outcome, record d { outside = after })

-- One that reads, and one that cannot fail.
abbrev pub read : {S W E B : Type 0} → (S → Outcome E B) → Act (DirectoryError E) (Directory S W) B
read act = call (λ s. (act s, s))

abbrev pub change : {S W E : Type 0} → (S → S) → Act (DirectoryError E) (Directory S W) Unit
change act = call (λ s. (ok tt, act s))

module _ {S A U W K P J E : Type 0} (api : WalletApi A U W) (calls : Outside S A K P J E) where
  abbrev pub Op : Type 0 → Type 0
  Op B = Act (DirectoryError E) (Directory S W) B

  -- The store after `init`.
  unfoldable pub init : S → Directory S W
  init s =
      let (accounts, after) = calls.cache_accounts s in
      record { outside = after; wallets = map api.wrap accounts; sent = [] }

  -- `refreshWallets` on the store.
  unfoldable pub refresh : Op Unit
  refresh d =
      let (accounts, after) = calls.cache_accounts d.outside in
      let (wallets, events) = refresh_wallets api accounts d.wallets in
      (ok tt, record { outside = after; wallets = wallets; sent = d.sent ++ events })

  -- `Wallets`.
  unfoldable pub wallets : Op (List W)
  wallets = do refresh; λ d. (ok d.wallets, d)

  -- `HasAddress` and `Accounts`.
  unfoldable pub has_address : K → Op Bool
  has_address key = call (λ s. let (exists, after) = calls.has_address key s in (ok exists, after))

  unfoldable pub accounts : Op (List A)
  accounts = call (λ s. let (found, after) = calls.cache_accounts s in (ok found, after))

  -- `Find`, `getDecryptedKey` and `getEncryptedKey`.
  unfoldable pub find : A → Op A
  find a = do change calls.maybe_reload; read (calls.cache_find a)

  unfoldable pub get_decrypted_key : A → P → Op (A × K)
  get_decrypted_key a auth = do
    found ← find a
    key ← read (calls.get_key found auth)
    pure (found, key)

  unfoldable pub get_encrypted_key : A → Op (A × K)
  get_encrypted_key a = do
    found ← find a
    key ← read (calls.get_encrypted_key found)
    pure (found, key)

  -- `Delete`: the file first, and the cache only when the file is gone.
  unfoldable pub delete : A → P → Op Unit
  delete a passphrase = do
    (found, key) ← get_decrypted_key a passphrase
    call (calls.remove found)
    change (calls.cache_delete found)
    refresh

  -- How each operation that makes an account ends.
  unfoldable pub add_account : A → Op A
  add_account a = do change (calls.cache_add a); refresh; pure a

  -- `NewAccount`.
  unfoldable pub new_account : P → Op A
  new_account passphrase = do account ← call (calls.store_new_key passphrase); add_account account

  -- `NewABaccount`: `opened` is what `GetAprivBaddress` gives, the base address and the private key,
  -- and the result has the address of the new key file.
  unfoldable pub new_ab_account : Outcome (DirectoryError E) (Bytes × Option K) → P → Op (A × Bytes)
  new_ab_account opened passphrase = do
    (base, key) ← λ d. (opened, d)
    (address, account) ← call (calls.store_new_ab_key base key passphrase)
    add_account account
    pure (account, address)

  -- `Export`.
  unfoldable pub export : A → P → P → Op J
  export a passphrase new_passphrase = do
    (found, key) ← get_decrypted_key a passphrase
    read (λ s.
        calls.encrypt_key key new_passphrase (elim (calls.passphrase_scrypt s) [
          | none ↦ calls.standard_scrypt
          | some scrypt ↦ scrypt
        ]))

  -- `importKey`.
  unfoldable pub import_key : K → P → Op A
  import_key key passphrase = do
    a ← call (λ s. (ok (calls.key_account key s), s))
    call (calls.store_key a key passphrase)
    add_account a

  -- `Import`.
  unfoldable pub import : J → P → P → Op A
  import key_json passphrase new_passphrase = do
    key ← read (λ s. calls.decrypt_key key_json passphrase)
    import_key key new_passphrase

  -- `ImportECDSA`, for the key made of the private key.
  unfoldable pub import_ecdsa : K → P → Op A
  import_ecdsa key passphrase = do
    exists ← has_address key
    if exists then (λ d. (err already_exists, d)) else import_key key passphrase

  -- `Update`.
  unfoldable pub update : A → P → P → Op Unit
  update a passphrase new_passphrase = do
    (found, key) ← get_decrypted_key a passphrase
    call (calls.store_key found key new_passphrase)

  -- `ImportPreSaleKey`.
  unfoldable pub import_pre_sale_key : J → P → Op A
  import_pre_sale_key key_json passphrase = do
    a ← call (calls.import_pre_sale_key key_json passphrase)
    add_account a
