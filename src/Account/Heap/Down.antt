-- ===== src/Account/Heap/Down.antt =====
-- `down` restores the heap order, and with it `heap.Init`, `heap.Fix` and `heap.Pop` do.
use address_verification.Base.{
  ℕ, zero, suc, ◌+◌, ◌-◌, ◌*◌, ◌<◌, ◌≤◌, ◌≡◌, ◌≢◌, ◌⊎◌, inl, inr, refl, ◌∙◌, List, arith, length,
  get_elem?, ltb, Bool-cases, ltb→lt, ltb-false,
}
use address_verification.Account.Heap.{swap, price_at, less, child, down}
use address_verification.Account.Heap.Order.{
  total, length-swap, total-swap, get_elem?-swap, price_at-swap, parent, IsHeapFrom,
}

module _ {T : Type 0} (price : T → ℕ) where
  -- Only the edges below `i` may be out of order, and its children cost no more than its parent.
  pub record DownInv (lo n : ℕ) (s : List T) (i : ℕ) : Type 0 where
    pub edges :
        (c : ℕ)
        → 0 < c
        → c < n
        → lo ≤ parent c
        → parent c ≢ i
        → price_at price s c ≤ price_at price s (parent c)
    pub bridged :
        (c : ℕ)
        → 0 < c
        → c < n
        → parent c ≡ i
        → 0 < i
        → lo ≤ parent i
        → price_at price s c ≤ price_at price s (parent i)

  -- `m` is a child of `i` that costs most.
  record IsChild (n : ℕ) (s : List T) (i m : ℕ) : Type 0 where
    inside : m < n
    below : (m ≡ 2 * i + 1) ⊎ (m ≡ 2 * i + 2)
    most : (c : ℕ) → 0 < c → c < n → parent c ≡ i → price_at price s c ≤ price_at price s m

  child-IsChild : (s : List T) (i n : ℕ) → 2 * i + 1 < n → IsChild n s i (child price s i n)
  unfolding child
  child-IsChild s i n h = grind arith

  -- What sifting the first n elements gives: their order, the same elements, and the others as before.
  pub record Sifted (lo n : ℕ) (s t : List T) : Type 0 where
    pub heap : IsHeapFrom price lo n t
    pub length_lem : length t ≡ length s
    pub total_lem : (f : T → ℕ) → total f t ≡ total f s
    pub beyond : (k : ℕ) → n ≤ k → get_elem? t k ≡ get_elem? s k

  swap-DownInv :
      (lo n : ℕ) (s : List T) (i m : ℕ)
      → n ≤ length s
      → DownInv lo n s i
      → IsChild n s i m
      → price_at price s i < price_at price s m
      → DownInv lo n (swap s i m) m
  swap-DownInv lo n s i m size v k more =
      let at =
        price_at-swap price s i m (omega (arith, k.inside, k.below)) (omega (arith, k.inside)) in
      record {
        edges = λ c p q r t.
            ground (arith, at c, at (parent c), v.edges c, v.bridged m, k.most c, k.below);
        bridged = λ c p q r t u. ground (arith, at c, at (parent m), v.edges c, k.below);
      }

  stop-Sifted : (lo n : ℕ) (s : List T) → IsHeapFrom price lo n s → Sifted lo n s s
  stop-Sifted lo n s h = record {
    heap = h;
    length_lem = refl;
    total_lem = λ f. refl;
    beyond = λ k l. refl;
  }

  swap-Sifted :
      (lo n : ℕ) (s t : List T) (i m : ℕ)
      → n ≤ length s
      → i < n
      → m < n
      → Sifted lo n (swap s i m) t
      → Sifted lo n s t
  swap-Sifted lo n s t i m size hi hm h =
      let below_i : i < length s = omega arith in
      let below_m : m < length s = omega arith in
      record {
        heap = h.heap;
        length_lem = h.length_lem ∙ length-swap s i m below_i below_m;
        total_lem = λ f. h.total_lem f ∙ total-swap s i m below_i below_m f;
        beyond = λ k l. h.beyond k l ∙ ground (arith, get_elem?-swap s i m below_i below_m k);
      }

  -- `down` turns a slice with one element too cheap for its place into a heap of the same elements,
  -- with fuel for as many rounds as there are elements behind it.
  pub down-Sifted :
      (fuel lo n : ℕ) (s : List T) (i : ℕ)
      → n - i < fuel
      → n ≤ length s
      → DownInv lo n s i
      → Sifted lo n s (down price fuel s i n)
  unfolding down
  down-Sifted zero lo n s i f size v = absurd (omega arith)
  down-Sifted (suc fuel) lo n s i f size v = elim (Bool-cases (ltb (2 * i + 1) n)) [
    | inr leaf ↦
        let no_child = ltb-false (2 * i + 1) n leaf in
        rw leaf (stop-Sifted lo n s (λ c p q r. v.edges c p q r (omega arith)))
    | inl node ↦
        let k = child-IsChild s i n (ltb→lt (2 * i + 1) n node) in
        let m = child price s i n in
        elim (Bool-cases (less price s m i)) [
          | inr settled ↦
              rw (node, settled)
                (stop-Sifted lo n s (λ c p q r. ground (arith, v.edges c, k.most c)))
          | inl more ↦
              let hi : i < n = omega (arith, k.inside, k.below) in
              rw (node, more)
                (swap-Sifted lo n s _ i m size hi k.inside (
                  down-Sifted fuel lo n (swap s i m) m (omega (arith, k.below, k.inside))
                    (omega (arith, length-swap s i m (omega arith) (omega (arith, k.inside))))
                    (swap-DownInv lo n s i m size v k (ltb→lt _ _ more))))
        ]
  ]
