-- ===== src/Account/Heap/Calls.antt =====
-- `heap.Init`, `heap.Fix` and `heap.Pop` give heaps of the elements that they are to hold.
use address_verification.Base.{
  ℕ, zero, suc, ◌+◌, ◌-◌, ◌/◌, ◌<◌, ◌≡◌, refl, sym, ap, ◌∙◌, List, [], ◌∷◌, some, arith, length,
  get_elem?, take, length-take,
}
use mathlib.Core.Path.{subst}
use address_verification.Account.Heap.{
  swap, price_of, price_at, down, init_loop, init_heap, fix_first, pop_heap,
}
use address_verification.Account.Heap.Order.{
  get_elem?-lt, total, length-swap, total-swap, get_elem?-swap, parent, IsHeapFrom,
}
use address_verification.Account.Heap.Down.{DownInv, Sifted, down-Sifted}

module _ {T : Type 0} (price : T → ℕ) where
  -- A heap of the same elements.
  pub record Heaped (s t : List T) : Type 0 where
    pub heap : IsHeapFrom price 0 (length t) t
    pub length_lem : length t ≡ length s
    pub total_lem : (f : T → ℕ) → total f t ≡ total f s

  parent-lt : (i : ℕ) → 0 < i → parent i < i
  parent-lt i h = omega arith

  init_loop-Sifted :
      (i n : ℕ) (s : List T)
      → length s ≡ n
      → IsHeapFrom price i n s
      → Sifted price 0 n s (init_loop price i s)
  unfolding init_loop
  init_loop-Sifted zero n s e h = record {
    heap = h;
    length_lem = refl;
    total_lem = λ f. refl;
    beyond = λ k l. refl;
  }
  init_loop-Sifted (suc i) n s e h =
      let start : DownInv price i n s i = record {
        edges = λ c p q r t. h c p q (omega arith);
        bridged = λ c p q r t u. absurd (omega (arith, parent-lt i t));
      } in
      let sunk : Sifted price i n s (down price (suc (length s)) s i (length s)) =
        subst (λ (t : ℕ). Sifted price i n s (down price (suc (length s)) s i t)) (sym e)
          (down-Sifted price (suc (length s)) i n s i (omega (arith, e)) (omega (arith, e))
            start) in
      let rest =
        init_loop-Sifted i n (down price (suc (length s)) s i (length s)) (sunk.length_lem ∙ e)
          sunk.heap in
      record {
        heap = rest.heap;
        length_lem = rest.length_lem ∙ sunk.length_lem;
        total_lem = λ f. rest.total_lem f ∙ sunk.total_lem f;
        beyond = λ k l. rest.beyond k l ∙ sunk.beyond k l;
      }

  Sifted-Heaped : (s t : List T) → Sifted price 0 (length s) s t → Heaped s t
  Sifted-Heaped s t h = record {
    heap = subst (λ (n : ℕ). IsHeapFrom price 0 n t) (sym h.length_lem) h.heap;
    length_lem = h.length_lem;
    total_lem = h.total_lem;
  }

  pub init_heap-Heaped : (s : List T) → Heaped s (init_heap price s)
  unfolding init_heap
  init_heap-Heaped s =
      Sifted-Heaped s _
        (init_loop-Sifted (length s / 2) (length s) s refl (λ c p q r. absurd (omega arith)))

  -- Every element but the first is where it was in a heap.
  AfterFirst : ℕ → List T → List T → Type 0
  AfterFirst n s t = (c : ℕ) → 0 < c → c < n → price_at price t c ≡ price_at price s c

  first-DownInv :
      (n : ℕ) (s t : List T) → IsHeapFrom price 0 n s → AfterFirst n s t → DownInv price 0 n t 0
  unfolding AfterFirst
  first-DownInv n s t h same = record {
    edges = λ c p q r away.
        omega (arith, h c p q r, same c p q, same (parent c) (omega arith) (omega arith));
    bridged = λ c p q r at_0. absurd (omega arith);
  }

  -- A heap whose first element is another one is a heap again after `heap.Fix`.
  pub fix_first-Heaped :
      (s t : List T)
      → length t ≡ length s
      → IsHeapFrom price 0 (length s) s
      → ((c : ℕ) → 0 < c → get_elem? t c ≡ get_elem? s c)
      → Heaped t (fix_first price t)
  unfolding fix_first AfterFirst
  fix_first-Heaped s t e h same = Sifted-Heaped t _ (
      down-Sifted price (suc (length t)) 0 (length t) t 0 (omega arith) (omega arith) (
        first-DownInv (length t) s t (subst (λ (n : ℕ). IsHeapFrom price 0 n s) (sym e) h)
          (λ c p q. ap (price_of price) (same c p))))

module _ {T : Type 0} where
  get_elem?-take : (n : ℕ) (s : List T) (i : ℕ) → i < n → get_elem? (take n s) i ≡ get_elem? s i
  get_elem?-take zero s i h = absurd (omega arith)
  get_elem?-take (suc n) [] i h = refl
  get_elem?-take (suc n) (x ∷ s) zero h = refl
  get_elem?-take (suc n) (x ∷ s) (suc i) h = get_elem?-take n s i (omega arith)

  total-take :
      (f : T → ℕ) (n : ℕ) (s : List T) (x : T)
      → length s ≡ suc n
      → get_elem? s n ≡ some x
      → total f (take n s) + f x ≡ total f s
  total-take f n [] x e h = absurd (omega arith)
  total-take f zero (y ∷ []) x e h = ground arith
  total-take f zero (y ∷ z ∷ s) x e h = absurd (omega arith)
  total-take f (suc n) (y ∷ s) x e h = omega (arith, total-take f n s x (omega arith) h)

module _ {T : Type 0} (price : T → ℕ) where
  -- What `heap.Pop` gives of a heap: its first element, and a heap of the others.
  pub record Popped (s : List T) (x : T) (t : List T) : Type 0 where
    pub heap : IsHeapFrom price 0 (length t) t
    pub length_lem : suc (length t) ≡ length s
    pub total_lem : (f : T → ℕ) → total f t + f x ≡ total f s

  pub pop_heap-Popped :
      (s : List T)
      → 0 < length s
      → IsHeapFrom price 0 (length s) s
      → (x : T) × (get_elem? s 0 ≡ some x)
        × ((pop_heap price s).0 ≡ some x)
        × Popped s x (pop_heap price s).1
  unfolding pop_heap AfterFirst
  pop_heap-Popped s some_left h =
      let n = length s - 1 in
      let (x, first) = get_elem?-lt s 0 some_left in
      let last_lt : n < length s = omega arith in
      let at = get_elem?-swap s 0 n some_left last_lt in
      let size : length (swap s 0 n) ≡ length s = length-swap s 0 n some_left last_lt in
      let sunk : Sifted price 0 n (swap s 0 n) (down price (suc (length s)) (swap s 0 n) 0 n) =
        down-Sifted price (suc (length s)) 0 n (swap s 0 n) 0 (omega arith) (omega (arith, size)) (
          first-DownInv price n s (swap s 0 n) (λ c p q r. h c p (omega arith) r)
            (λ c p q. ground (arith, ap (price_of price) (at c)))) in
      let popped : get_elem? (down price (suc (length s)) (swap s 0 n) 0 n) n ≡ some x =
        sunk.beyond n (omega arith) ∙ ground (arith, at n) in
      let t = down price (suc (length s)) (swap s 0 n) 0 n in
      let t_size : length t ≡ suc n = omega (arith, sunk.length_lem, size) in
      let width : length (take n t) ≡ n = omega (arith, length-take n t, t_size) in
      (
        x,
        first,
        popped,
        record {
          heap = λ c p q r.
              let inside : c < n = omega (arith, width) in
              omega (
                arith,
                sunk.heap c p inside r,
                ap (price_of price) (get_elem?-take n t c inside),
                ap (price_of price) (get_elem?-take n t (parent c) (omega (arith, inside))),
              );
          length_lem = omega (arith, width);
          total_lem = λ f.
              total-take f n t x t_size popped
              ∙ sunk.total_lem f
              ∙ total-swap s 0 n some_left last_lt f;
        },
      )
