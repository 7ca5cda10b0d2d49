-- ===== src/Account/Queue/Tests.antt =====
-- A queue of the transactions n, each of account n % 10 and at price n / 10.
use address_verification.Base.{
  ℕ, zero, suc, ◌+◌, ◌/◌, ◌%◌, ◌≡◌, refl, List, [], ◌∷◌, none, some, Bool, arith, ◌==◌, ==_iff,
}
use address_verification.Account.Heap.{pop_heap, down, swap, fix_first}
use address_verification.Account.Heap.Order.{total}
use address_verification.Account.Queue.Drain.{drain, drain-ends}
use address_verification.Account.Queue.{
  lookup, insert, Queue, new_transactions_by_price_and_nonce, peek, shift,
}
use address_verification.Account.Queue.Content.{total_map, holds}
use address_verification.Account.Queue.Steps.{IsValid, Without, shift-Without, new-IsValid}

abbrev cost : ℕ → ℕ
cost n = n / 10

abbrev account : ℕ → ℕ
account n = n % 10

abbrev same : ℕ → ℕ → Bool
same a b = a == b

abbrev two_accounts : List (ℕ × List ℕ)
two_accounts = (1, 21 ∷ 51 ∷ []) ∷ (2, 32 ∷ []) ∷ []

abbrev two_heads : Queue ℕ ℕ
two_heads = record { txs = (1, 51 ∷ []) ∷ (2, []) ∷ []; heads = 32 ∷ 21 ∷ [] }

two_heads-IsValid : IsValid cost two_heads
two_heads-IsValid zero h l m = absurd (omega arith)
two_heads-IsValid (suc zero) h l m = omega arith
two_heads-IsValid (suc (suc c)) h l m = absurd (omega arith)

new-IsValid_example :
    (q : Queue ℕ ℕ) × (new_transactions_by_price_and_nonce same cost account
        (1 ∷ 2 ∷ [])
        two_accounts
      ≡ some q)
    × IsValid cost q
    × ((f : ℕ → ℕ) → holds f q ≡ total_map f two_accounts)
unfolding lookup
new-IsValid_example =
    new-IsValid same cost account ==_iff (1 ∷ 2 ∷ []) two_accounts
      ((21, 51 ∷ [], refl, refl), (refl, tt), ((32, [], refl, refl), tt, tt))

shift-Without_example :
    (t : Queue ℕ ℕ) × (shift same cost account two_heads ≡ some t) × Without cost 32 two_heads t
shift-Without_example = shift-Without same cost account two_heads 32 two_heads-IsValid refl

drain-ends_example :
    (peek (drain same cost account 3 two_heads).1 ≡ none)
    × ((f : ℕ → ℕ)
        → total f (drain same cost account 3 two_heads).0
            + total_map f (drain same cost account 3 two_heads).1.txs
          ≡ holds f two_heads)
drain-ends_example = drain-ends same cost account 3 two_heads two_heads-IsValid (omega arith)

-- The transactions come out by price, the account's second one when the first one is taken.
drained : (drain same cost account 3 two_heads).0 ≡ 32 ∷ 21 ∷ 51 ∷ []
unfolding drain shift lookup pop_heap down swap fix_first insert
drained = refl
