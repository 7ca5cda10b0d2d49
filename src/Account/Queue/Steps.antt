-- ===== src/Account/Queue/Steps.antt =====
-- `Peek`, `Shift` and `Pop` on a queue whose heads are a heap, and the constructor, which makes one.
use address_verification.Base.{
  ℕ, zero, suc, ◌+◌, ◌<◌, ◌≤◌, ◌≡◌, refl, sym, ap, ◌∙◌, List, [], ◌∷◌, ◌++◌, Option, none, some,
  arith, length, get_elem?, Bool, true, false, ◌==◌, ◌↔◌, All,
}
use mathlib.Core.Path.{subst}
use mathlib.Core.Option.{some-injective}
use address_verification.Account.Heap.{set, price_of, price_at, init_heap, fix_first, pop_heap}
use address_verification.Account.Heap.Order.{
  length-set, get_elem?-set, total, total-set, IsHeapFrom, first_most,
}
use address_verification.Account.Heap.Calls.{
  Heaped, init_heap-Heaped, fix_first-Heaped, pop_heap-Popped,
}
use address_verification.Account.Queue.{
  lookup, insert, Queue, new_loop, new_transactions_by_price_and_nonce, peek, pop, shift_to, shift,
}
use address_verification.Account.Queue.Content.{
  total_map, total_map-insert, lookup-insert_other, holds,
}

module _ {T : Type 0} where
  get_elem?-some : (s : List T) (i : ℕ) (x : T) → get_elem? s i ≡ some x → i < length s
  get_elem?-some [] i x e = absurd (ground arith)
  get_elem?-some (y ∷ s) zero x e = omega arith
  get_elem?-some (y ∷ s) (suc i) x e = omega (arith, get_elem?-some s i x e)

  total-append : (f : T → ℕ) (s t : List T) → total f (s ++ t) ≡ total f s + total f t
  total-append f [] t = omega arith
  total-append f (x ∷ s) t = omega (arith, total-append f s t)

module _ {A T : Type 0} (price : T → ℕ) where
  -- The heads are a heap by price.
  abbrev pub IsValid : Queue A T → Type 0
  IsValid q = IsHeapFrom price 0 (length q.heads) q.heads

  -- `Peek` gives a head that no head costs more than, when the heads are a heap.
  pub peek-most :
      (q : Queue A T) (x : T)
      → IsValid q
      → peek q ≡ some x
      → (i : ℕ) → i < length q.heads
      → price_at price q.heads i ≤ price x
  peek-most q x v e i h =
      omega (arith, first_most price (length q.heads) q.heads i v h, ap (price_of price) e)

  -- What `Shift` gives: a queue of the same shape that holds the transactions but x.
  pub record Without (x : T) (q t : Queue A T) : Type 0 where
    pub valid : IsValid t
    pub holds_lem : (f : T → ℕ) → holds f t + f x ≡ holds f q

  -- `Pop`, on heads that are a heap, succeeds and removes the first head: the heads are a heap again,
  -- the lists of the accounts are as they were, and the queue holds the other transactions.
  pub pop-Without :
      (q : Queue A T) (x : T)
      → IsValid q
      → peek q ≡ some x
      → (t : Queue A T) × (pop price q ≡ some t) × (t.txs ≡ q.txs) × Without x q t
  unfolding pop
  pop-Without q x v e =
      let lt = get_elem?-some q.heads 0 x e in
      let (y, first, popped, p) = pop_heap-Popped price q.heads lt v in
      let same_x : x ≡ y = some-injective _ _ (sym e ∙ first) in
      let filled : (length q.heads == 0) ≡ false = ground arith in
      (
        record q { heads = (pop_heap price q.heads).1 },
        rw filled refl,
        refl,
        record { valid = p.heap; holds_lem = λ f. omega (arith, p.total_lem f, ap f same_x) },
      )

module _ {A T : Type 0} (same : A → A → Bool) (price : T → ℕ) (sender : T → A) where
  next-Without :
      (q : Queue A T) (x tx : T) (rest : List T)
      → IsValid price q
      → peek q ≡ some x
      → lookup same (sender x) q.txs ≡ some (tx ∷ rest)
      → Without price x q (record {
        txs = insert same (sender x) rest q.txs;
        heads = fix_first price (set q.heads 0 tx);
      })
  next-Without q x tx rest v e found =
      let lt = get_elem?-some q.heads 0 x e in
      let placed = get_elem?-set q.heads 0 in
      let h : Heaped price (set q.heads 0 tx) (fix_first price (set q.heads 0 tx)) =
        fix_first-Heaped price q.heads (set q.heads 0 tx) (length-set q.heads 0 tx) v
          (λ c l. ground (arith, placed c tx lt)) in
      record {
        valid = h.heap;
        holds_lem = λ f. omega (
          arith,
          h.total_lem f,
          total-set f q.heads 0 tx x e,
          total_map-insert same f (sender x) rest (tx ∷ rest) q.txs found,
        );
      }

  -- `Shift`, on heads that are a heap, succeeds and removes the first head: the heads are a heap again,
  -- and the queue holds the other transactions.
  pub shift-Without :
      (q : Queue A T) (x : T)
      → IsValid price q
      → peek q ≡ some x
      → (t : Queue A T) × (shift same price sender q ≡ some t) × Without price x q t
  unfolding shift shift_to
  shift-Without q x v e = rw (e, shift) (shift_to-Without (lookup same (sender x) q.txs) refl)
    where
      popped : (t : Queue A T) × (pop price q ≡ some t) × Without price x q t
      popped = let (t, run, _, w) = pop-Without price q x v e in (t, run, w)

      shift_to-Without :
          (o : Option (List T))
          → lookup same (sender x) q.txs ≡ o
          → (t : Queue A T) × (shift_to same price sender (sender x) o q ≡ some t)
            × Without price x q t
      shift_to-Without none _ = popped
      shift_to-Without (some []) _ = popped
      shift_to-Without (some (tx ∷ rest)) found = (_, refl, next-Without q x tx rest v e found)

  -- The keys that `range` visits are different, and each has a list that starts with a transaction
  -- of its own.
  abbrev pub IsReady : List A → List (A × List T) → Type 0
  IsReady [] txs = Unit
  IsReady (k ∷ keys) txs =
      ((tx : T) × (rest : List T) × (lookup same k txs ≡ some (tx ∷ rest)) × (sender tx ≡ k))
      × All (λ j. same j k ≡ false) keys
      × IsReady keys txs

  module _ (same_iff : (a b : A) → (same a b ≡ true) ↔ (a ≡ b)) where
    IsReady-insert :
        (k : A) (l : List T) (keys : List A) (txs : List (A × List T))
        → All (λ j. same j k ≡ false) keys
        → IsReady keys txs
        → IsReady keys (insert same k l txs)
    IsReady-insert k l [] txs _ _ = tt
    IsReady-insert k l (j ∷ keys) txs (other, others) ((tx, rest, found, own), apart, ready) = (
      (tx, rest, sym (lookup-insert_other same same_iff j k l txs other) ∙ found, own),
      apart,
      IsReady-insert k l keys txs others ready,
    )

    new_loop-holds :
        (keys : List A) (q : Queue A T)
        → IsReady keys q.txs
        → (t : Queue A T) × (new_loop same price sender keys q ≡ some t)
          × ((f : T → ℕ) → holds f t ≡ holds f q)
    unfolding new_loop
    new_loop-holds [] q _ = (q, refl, λ f. refl)
    new_loop-holds (k ∷ keys) q ((tx, rest, found, own), apart, ready) =
        let left = insert same (sender tx) rest q.txs in
        let ready_left : IsReady keys left =
          subst (λ s. IsReady keys (insert same s rest q.txs)) (sym own)
            (IsReady-insert k rest keys q.txs apart ready) in
        let at_sender : lookup same (sender tx) q.txs ≡ some (tx ∷ rest) =
          subst (λ s. lookup same s q.txs ≡ some (tx ∷ rest)) (sym own) found in
        let (t, run, kept) =
          new_loop-holds keys (record { txs = left; heads = q.heads ++ tx ∷ [] }) ready_left in
        (
          t,
          rw (found, new_loop) run,
          λ f. omega (
            arith,
            kept f,
            total-append f q.heads (tx ∷ []),
            total_map-insert same f (sender tx) rest (tx ∷ rest) q.txs at_sender,
          ),
        )

    -- Where the keys visited are different and each has a list that starts with a transaction of its
    -- own, and the test of keys decides equality, the constructor succeeds, its heads are a heap, and
    -- the queue holds the transactions of the map, however they are weighed.
    pub new-IsValid :
        (keys : List A) (txs : List (A × List T))
        → IsReady keys txs
        → (q : Queue A T) × (new_transactions_by_price_and_nonce same price sender keys txs
            ≡ some q)
          × IsValid price q
          × ((f : T → ℕ) → holds f q ≡ total_map f txs)
    unfolding new_transactions_by_price_and_nonce
    new-IsValid keys txs ready =
        let (t, run, kept) = new_loop-holds keys (record { txs = txs; heads = [] }) ready in
        let h = init_heap-Heaped price t.heads in
        (
          record t { heads = init_heap price t.heads },
          rw (run, new_transactions_by_price_and_nonce) refl,
          h.heap,
          λ f. omega (arith, h.total_lem f, kept f),
        )
