-- ===== src/Account/Heap/Order.antt =====
-- Prices after an assignment and a swap, and the heap order.
use address_verification.Base.{
  ℕ, zero, suc, ◌+◌, ◌-◌, ◌/◌, ◌<◌, ◌≤◌, ◌≡◌, refl, ap, ◌∙◌, List, [], ◌∷◌, some, arith, length,
  get_elem?, ◌==◌, if◌then◌else◌,
}
use address_verification.Account.Heap.{set, swap, price_of, price_at}

module _ {T : Type 0} where
  pub get_elem?-lt : (s : List T) (i : ℕ) → i < length s → (x : T) × (get_elem? s i ≡ some x)
  get_elem?-lt [] i h = absurd (omega arith)
  get_elem?-lt (x ∷ s) zero h = (x, refl)
  get_elem?-lt (x ∷ s) (suc i) h = get_elem?-lt s i (omega arith)

  pub length-set : (s : List T) (i : ℕ) (v : T) → length (set s i v) ≡ length s
  unfolding set
  length-set [] i v = refl
  length-set (x ∷ s) zero v = refl
  length-set (x ∷ s) (suc i) v = ap suc (length-set s i v)

  -- What a list weighs under a weight of its elements.
  abbrev pub total : (T → ℕ) → List T → ℕ
  total f [] = 0
  total f (x ∷ s) = f x + total f s

  pub total-set :
      (f : T → ℕ) (s : List T) (i : ℕ) (v x : T)
      → get_elem? s i ≡ some x
      → total f (set s i v) + f x ≡ total f s + f v
  unfolding set
  total-set f [] i v x h = absurd (ground arith)
  total-set f (y ∷ s) zero v x h = ground arith
  total-set f (y ∷ s) (suc i) v x h = omega (arith, total-set f s i v x h)

  pub get_elem?-set :
      (s : List T) (i j : ℕ) (v : T)
      → i < length s
      → get_elem? (set s i v) j ≡ (if i == j then some v else get_elem? s j)
  unfolding set
  get_elem?-set [] i j v h = absurd (omega arith)
  get_elem?-set (x ∷ s) zero zero v h = refl
  get_elem?-set (x ∷ s) zero (suc j) v h = ground arith
  get_elem?-set (x ∷ s) (suc i) zero v h = ground arith
  get_elem?-set (x ∷ s) (suc i) (suc j) v h = ground (arith, get_elem?-set s i j v)

module _ {T : Type 0} (s : List T) (i j : ℕ) (hi : i < length s) (hj : j < length s) where
  swap-set :
      (x : T) × (y : T) × (get_elem? s i ≡ some x)
      × (get_elem? s j ≡ some y)
      × (swap s i j ≡ set (set s i y) j x)
  unfolding swap
  swap-set =
      let (x, ex) = get_elem?-lt s i hi in
      let (y, ey) = get_elem?-lt s j hj in (x, y, ex, ey, rw (ex, ey, swap) refl)

  pub length-swap : length (swap s i j) ≡ length s
  length-swap =
      let (x, y, ex, ey, e) = swap-set in
      ap length e ∙ length-set (set s i y) j x ∙ length-set s i y

  -- A swap keeps the elements.
  pub total-swap : (f : T → ℕ) → total f (swap s i j) ≡ total f s
  total-swap f =
      let (x, y, ex, ey, e) = swap-set in
      let second : get_elem? (set s i y) j ≡ some y = ground (arith, get_elem?-set s i j y hi) in
      omega (arith, ap (total f) e, total-set f (set s i y) j x y second, total-set f s i y x ex)

  pub get_elem?-swap :
      (c : ℕ)
      → get_elem? (swap s i j) c
        ≡ (if j == c then get_elem? s i else if i == c then get_elem? s j else get_elem? s c)
  get_elem?-swap c =
      let (x, y, ex, ey, e) = swap-set in
      ap (λ l. get_elem? l c) e
      ∙ get_elem?-set (set s i y) j c x (omega (arith, length-set s i y))
      ∙ ground (arith, get_elem?-set s i c y hi)

abbrev pub parent : ℕ → ℕ
parent c = (c - 1) / 2

module _ {T : Type 0} (price : T → ℕ) where
  pub price_at-swap :
      (s : List T) (i j : ℕ)
      → i < length s
      → j < length s
      → (c : ℕ)
      → price_at price (swap s i j) c ≡ (
          if j == c
          then price_at price s i
          else if i == c
          then price_at price s j
          else price_at price s c)
  price_at-swap s i j hi hj c = ground (arith, ap (price_of price) (get_elem?-swap s i j hi hj c))

  -- No element from number `lo` on costs more than its parent, among the first n.
  abbrev pub IsHeapFrom : ℕ → ℕ → List T → Type 0
  IsHeapFrom lo n s =
      (c : ℕ) → 0 < c → c < n → lo ≤ parent c → price_at price s c ≤ price_at price s (parent c)

  -- The first element costs most.
  root_most :
      (fuel n : ℕ) (s : List T) (i : ℕ)
      → IsHeapFrom 0 n s
      → i < fuel
      → i < n
      → price_at price s i ≤ price_at price s 0
  root_most zero n s i h f l = absurd (omega arith)
  root_most (suc fuel) n s zero h f l = omega arith
  root_most (suc fuel) n s (suc i) h f l =
      let up = h (suc i) (omega arith) l (omega arith) in
      let rest = root_most fuel n s (parent (suc i)) h (omega arith) (omega arith) in
      omega (arith, up, rest)

  pub first_most :
      (n : ℕ) (s : List T) (i : ℕ)
      → IsHeapFrom 0 n s
      → i < n
      → price_at price s i ≤ price_at price s 0
  first_most n s i h l = root_most (suc i) n s i h (omega arith) l
