-- ===== src/Account/Heap.antt =====
-- `TxByPrice` of ABaccount/transaction.go under `heap.Init`, `heap.Fix` and `heap.Pop` of Go's
-- container/heap: a binary heap in a slice, with the highest price first. Indices stay in range by
-- the tests of the loops; a swap out of range, which would panic, changes nothing.
pub mod Order
pub mod Down
pub mod Calls
use address_verification.Base.{
  ℕ, zero, suc, ◌+◌, ◌-◌, ◌*◌, ◌/◌, List, [], ◌∷◌, Option, none, some, Bool, true, false, not, ◌&&◌,
  ltb, if◌then◌else◌, length, take, get_elem?,
}

-- An assignment to an element.
unfoldable pub set {ℓ} : {A : Type ℓ} → List A → ℕ → A → List A
set [] i v = []
set (x ∷ xs) zero v = v ∷ xs
set (x ∷ xs) (suc i) v = x ∷ set xs i v

module _ {T : Type 0} (price : T → ℕ) where
  abbrev pub price_of : Option T → ℕ
  price_of none = 0
  price_of (some x) = price x

  abbrev pub price_at : List T → ℕ → ℕ
  price_at s i = price_of (get_elem? s i)

  -- `Less`: the higher price is in front.
  abbrev pub less : List T → ℕ → ℕ → Bool
  less s i j = ltb (price_at s j) (price_at s i)

-- `Swap`.
unfoldable pub swap {ℓ} : {A : Type ℓ} → List A → ℕ → ℕ → List A
unfolding set
swap s i j = elim (get_elem? s i) [
  | none ↦ s
  | some x ↦ elim (get_elem? s j) [ none ↦ s | some y ↦ set (set s i y) j x ]
]

module _ {T : Type 0} (price : T → ℕ) where
  -- The child of i that `down` compares with it.
  unfoldable pub child : List T → ℕ → ℕ → ℕ
  child s i n =
      let left = 2 * i + 1 in
      if ltb (left + 1) n && less price s (left + 1) left then left + 1 else left

  -- `down`, with fuel for its rounds.
  unfoldable pub down : ℕ → List T → ℕ → ℕ → List T
  down zero s i n = s
  down (suc fuel) s i n =
      let j = child s i n in
      let rest = down fuel (swap s i j) j n in
      if not (ltb (2 * i + 1) n) then s else if not (less price s j i) then s else rest

  -- The loop of `heap.Init` from n / 2 - 1 down to 0.
  unfoldable pub init_loop : ℕ → List T → List T
  init_loop zero s = s
  init_loop (suc i) s = init_loop i (down (suc (length s)) s i (length s))

  -- `heap.Init`.
  unfoldable pub init_heap : List T → List T
  init_heap s = init_loop (length s / 2) s

  -- `heap.Fix` at 0, where `up` has nothing to do.
  unfoldable pub fix_first : List T → List T
  fix_first s = down (suc (length s)) s 0 (length s)

  -- `heap.Pop` of a heap that is not empty, and what is left of it.
  unfoldable pub pop_heap : List T → Option T × List T
  pop_heap s =
      let n = length s - 1 in
      let sunk = down (suc (length s)) (swap s 0 n) 0 n in (get_elem? sunk n, take n sunk)
