-- ===== src/Account/Queue.antt =====
-- `TransactionsByPriceAndNonce` of ABaccount/transaction.go: the next transaction of each account in a
-- heap by price, and the others of each account in their order.
pub mod Content
pub mod Steps
pub mod Drain
mod Tests
use address_verification.Base.{
  ℕ, List, [], ◌∷◌, ◌++◌, Option, none, some, Bool, true, false, if◌then◌else◌, get_elem?, length,
  ◌==◌,
}
use address_verification.Account.Heap.{set, init_heap, fix_first, pop_heap}
use address_verification.Account.Transaction.{TxData, Transaction}

-- A map by its entries.
module _ {A V : Type 0} (same : A → A → Bool) where
  unfoldable pub lookup : A → List (A × V) → Option V
  lookup k [] = none
  lookup k ((j, v) ∷ m) = let rest = lookup k m in if same k j then some v else rest

  unfoldable pub insert : A → V → List (A × V) → List (A × V)
  insert k v [] = (k, v) ∷ []
  insert k v ((j, w) ∷ m) =
      let rest = insert k v m in if same k j then (j, v) ∷ m else (j, w) ∷ rest

-- For accounts `A` and transactions `T`; the signer is in `sender` below.
pub record Queue (A T : Type 0) : Type 0 where
  pub txs : List (A × List T)
  pub heads : List T

module _ {A T : Type 0} where
  -- `Peek`.
  abbrev pub peek : Queue A T → Option T
  peek q = get_elem? q.heads 0

module _ {A T : Type 0} (price : T → ℕ) where
  -- `Pop`, which panics on an empty heap.
  unfoldable pub pop : Queue A T → Option (Queue A T)
  pop q =
      if length q.heads == 0 then none else some (record q { heads = (pop_heap price q.heads).1 })

-- `price` is `data.Price`; `sender` is the address that `Sender` gives for the signer, whose error is
-- dropped.
module _ {A T : Type 0} (same : A → A → Bool) (price : T → ℕ) (sender : T → A) where
  -- The loop of the constructor over the keys that `range` visits, each with the list it has then;
  -- `none` is the panic on an empty list.
  unfoldable pub new_loop : List A → Queue A T → Option (Queue A T)
  unfolding lookup insert
  new_loop [] q = some q
  new_loop (key ∷ keys) q = elim (lookup same key q.txs) [
    | none ↦ new_loop keys q
    | some [] ↦ none
    | some (tx ∷ rest) ↦
        new_loop keys
          (record { txs = insert same (sender tx) rest q.txs; heads = q.heads ++ tx ∷ [] })
  ]

  -- `NewTransactionsByPriceAndNonce`.
  unfoldable pub new_transactions_by_price_and_nonce :
      List A → List (A × List T) → Option (Queue A T)
  new_transactions_by_price_and_nonce keys txs =
      elim (new_loop keys (record { txs = txs; heads = [] })) [
        | none ↦ none
        | some q ↦ some (record q { heads = init_heap price q.heads })
      ]

  -- The branches of `Shift` for the list of the first head's account.
  unfoldable pub shift_to : A → Option (List T) → Queue A T → Option (Queue A T)
  unfolding pop
  shift_to acc none q = pop price q
  shift_to acc (some []) q = pop price q
  shift_to acc (some (tx ∷ rest)) q =
      some (record { txs = insert same acc rest q.txs; heads = fix_first price (set q.heads 0 tx) })

  -- `Shift`, which panics on an empty heap.
  unfoldable pub shift : Queue A T → Option (Queue A T)
  unfolding shift_to
  shift q = elim (peek q) [
    | none ↦ none
    | some head ↦ shift_to (sender head) (lookup same (sender head) q.txs) q
  ]
