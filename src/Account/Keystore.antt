-- ===== src/Account/Keystore.antt =====
-- The unlocked keys of `KeyStore` in ABaccount/keystore.go: `TimedUnlock`, `Lock`, `expire`,
-- `SignHash` and `SignTx`. A `*unlocked` is its number in the order of allocation, an
-- address is a number, and the calls of `expire` that have not ended are a list: each is one step.
pub mod Live
pub mod Unlocked
pub mod View
pub mod Expirers
pub mod Refinement
pub mod Locking
mod Tests
use address_verification.Base.{
  ℕ, zero, suc, ◌+◌, ◌≡◌, List, [], ◌∷◌, ◌++◌, Option, none, some, Bool, true, false, not, ◌&&◌,
  ltb, ◌==◌, if◌then◌else◌,
}
use address_verification.Base.Outcome.{Outcome, ok, err, panic, ◌>>=◌, or_panic}

-- An `unlocked` behind its pointer: the key, `none` once `zeroKey` has erased it, whether `abort`
-- is not nil, and whether that channel is closed.
pub record Entry (K : Type 0) : Type 0 where
  pub key : Option K
  pub timed : Bool
  pub aborted : Bool

-- The store: the objects allocated, the map from addresses to pointers, and the calls of `expire`
-- by address and pointer.
pub record Store (K : Type 0) : Type 0 where
  pub next : ℕ
  pub objects : ℕ → Option (Entry K)
  pub unlocked : ℕ → Option ℕ
  pub expirers : List (ℕ × ℕ)

pub data StoreError (E : Type 0) : Type 0 where
  locked : StoreError E
  failed : E → StoreError E

abbrev pub empty_store : {K : Type 0} → Store K
empty_store = record { next = 0; objects = λ p. none; unlocked = λ a. none; expirers = [] }

-- An assignment to a map.
unfoldable pub update : {A : Type 0} → (ℕ → A) → ℕ → A → ℕ → A
update f k a i = if i == k then a else f i

-- `close(u.abort)`, which panics on a channel that is nil or closed.
unfoldable pub close_abort : {K : Type 0} → ℕ → Entry K → Store K → Option (Store K)
close_abort p entry s =
    if not entry.timed
    then none
    else if entry.aborted
    then none
    else some (record s { objects = update s.objects p (some (record entry { aborted = true })) })

-- The new `unlocked` of `TimedUnlock`, with its goroutine if there is a timeout.
unfoldable pub install : {K : Type 0} → ℕ → K → ℕ → Store K → Store K
install address key timeout s =
    let timed = ltb 0 timeout in
    let entry : Entry _ = record { key = some key; timed = timed; aborted = false } in
    record {
      next = suc s.next;
      objects = update s.objects s.next (some entry);
      unlocked = update s.unlocked address (some s.next);
      expirers = if timed then s.expirers ++ (address, s.next) ∷ [] else s.expirers;
    }

-- `TimedUnlock` behind `getDecryptedKey`, where the address is found unlocked by `p`.
unfoldable pub unlock_again : {K : Type 0} → ℕ → K → ℕ → ℕ → Entry K → Store K → Option (Store K)
unlock_again address key timeout p entry s =
    let replaced : Option (Store _) = elim (close_abort p entry s) [
      | none ↦ none
      | some t ↦ some (install address key timeout t)
    ] in
    if not entry.timed then some s else replaced

unfoldable pub unlock_decrypted : {K : Type 0} → ℕ → K → ℕ → Store K → Option (Store K)
unlock_decrypted address key timeout s = elim (s.unlocked address) [
  | none ↦ some (install address key timeout s)
  | some p ↦ elim (s.objects p) [
    | none ↦ none
    | some entry ↦ unlock_again address key timeout p entry s
  ]
]

-- `TimedUnlock`: `decrypted` is what `getDecryptedKey` gives, the account's address and its key.
unfoldable pub timed_unlock : {K E : Type 0} → Outcome E (ℕ × K) → ℕ → Store K → Outcome E (Store K)
timed_unlock decrypted timeout s = do
  (address, key) ← decrypted
  or_panic (unlock_decrypted address key timeout s)

unfoldable pub unlock : {K E : Type 0} → Outcome E (ℕ × K) → Store K → Outcome E (Store K)
unlock decrypted s = timed_unlock decrypted 0 s

-- `Lock` up to its call of `expire`.
unfoldable pub lock : {K : Type 0} → ℕ → Store K → Store K
lock address s = elim (s.unlocked address) [
  | none ↦ s
  | some p ↦ record s { expirers = s.expirers ++ (address, p) ∷ [] }
]

-- `zeroKey` on the key behind a pointer.
abbrev pub erase : {K : Type 0} → Option (Entry K) → Option (Entry K)
erase none = none
erase (some entry) = some (record entry { key = none })

-- The branch of `expire` after the timer: the key is dropped if it is still the same instance.
unfoldable pub expire : {K : Type 0} → ℕ → ℕ → Store K → Store K
expire address p s = elim (s.unlocked address) [
  | none ↦ s
  | some q ↦
      if q == p
      then record s {
        objects = update s.objects p (erase (s.objects p));
        unlocked = update s.unlocked address none;
      }
      else s
]

-- The key that `SignHash` and `SignTx` sign with.
unfoldable pub unlocked_key : {K E : Type 0} → ℕ → Store K → Outcome (StoreError E) (Option K)
unlocked_key address s = elim (s.unlocked address) [
  | none ↦ err locked
  | some p ↦ elim (s.objects p) [ none ↦ Outcome.panic | some entry ↦ ok entry.key ]
]

abbrev pub from_library : {E B : Type 0} → Outcome E B → Outcome (StoreError E) B
from_library (ok b) = ok b
from_library (err e) = err (failed e)
from_library panic = Outcome.panic

-- `SignHash`: `sign` is `crypto.Sign`, on an erased key too.
unfoldable pub sign_hash :
    {K E B : Type 0} → (Option K → Outcome E B) → ℕ → Store K → Outcome (StoreError E) B
sign_hash sign address s = do key ← unlocked_key address s; from_library (sign key)

-- `SignTx`: `sign` is `types.SignTx` with the signer for the chain, or the homestead signer.
unfoldable pub sign_tx :
    {K E B : Type 0}
    → (Option ℕ → Option K → Outcome E B)
    → ℕ
    → Option ℕ
    → Store K
    → Outcome (StoreError E) B
sign_tx sign address chain s = do key ← unlocked_key address s; from_library (sign chain key)

-- `SignHashWithPassphrase` and `SignTxWithPassphrase`, with `sign` for the hash or transaction.
unfoldable pub sign_with_passphrase :
    {K E B : Type 0} → Outcome E (ℕ × K) → (K → Outcome E B) → Outcome E B
sign_with_passphrase decrypted sign = do (address, key) ← decrypted; sign key

-- A step of the store: a call of `TimedUnlock` or `Lock`, or the end of a call of `expire`.
pub data Step {K : Type 0} (s : Store K) : Store K → Type 0 where
  unlocks :
      {t : Store K} (address : ℕ) (key : K) (timeout : ℕ)
      → unlock_decrypted address key timeout s ≡ some t
      → Step s t
  locks : (address : ℕ) → Step s (lock address s)
  quits :
      (before after : List (ℕ × ℕ)) (address p : ℕ) (entry : Entry K)
      → s.expirers ≡ before ++ (address, p) ∷ after
      → s.objects p ≡ some entry
      → entry.aborted ≡ true
      → Step s (record s { expirers = before ++ after })
  fires :
      (before after : List (ℕ × ℕ)) (address p : ℕ)
      → s.expirers ≡ before ++ (address, p) ∷ after
      → Step s (expire address p (record s { expirers = before ++ after }))

-- The stores that come about from the empty one.
pub data Reachable {K : Type 0} : Store K → Type 0 where
  start : Reachable empty_store
  next_step : {s t : Store K} → Reachable s → Step s t → Reachable t
