-- ===== src/Account/Queue/Content.antt =====
-- What a queue holds.
use address_verification.Base.{
  ℕ, ◌+◌, ◌≡◌, ◌↔◌, refl, sym, ap, ◌∙◌, List, [], ◌∷◌, some, Bool, true, false, arith, Bool-cases,
  inl, inr, if◌then◌else◌,
}
use mathlib.Core.Bool.{false≢true}
use mathlib.Core.Option.{some-injective}
use address_verification.Account.Heap.Order.{total}
use address_verification.Account.Queue.{lookup, insert, Queue}

module _ {A T : Type 0} where
  -- The transactions of a map, weighed.
  abbrev pub total_map : (T → ℕ) → List (A × List T) → ℕ
  total_map f [] = 0
  total_map f ((k, l) ∷ m) = total f l + total_map f m

  -- All that a queue holds, weighed.
  abbrev pub holds : (T → ℕ) → Queue A T → ℕ
  holds f q = total f q.heads + total_map f q.txs

module _ {A T : Type 0} (same : A → A → Bool) where
  lookup_here :
      (k j : A) (w : List T) (m : List (A × List T))
      → same k j ≡ true
      → lookup same k ((j, w) ∷ m) ≡ some w
  unfolding lookup
  lookup_here k j w m h = rw h refl

  lookup_there :
      (k j : A) (w : List T) (m : List (A × List T))
      → same k j ≡ false
      → lookup same k ((j, w) ∷ m) ≡ lookup same k m
  unfolding lookup
  lookup_there k j w m h = rw h refl

  -- A list that replaces another one under its key.
  pub total_map-insert :
      (f : T → ℕ) (k : A) (l old : List T) (m : List (A × List T))
      → lookup same k m ≡ some old
      → total_map f (insert same k l m) + total f old ≡ total_map f m + total f l
  unfolding lookup insert
  total_map-insert f k l old [] e = absurd (ground arith)
  total_map-insert f k l old ((j, w) ∷ m) e = elim (Bool-cases (same k j)) [
    | inl here ↦
        rw here
          (omega (arith, ap (total f) (some-injective _ _ (sym (lookup_here k j w m here) ∙ e))))
    | inr there ↦
        rw there
          (omega (arith, total_map-insert f k l old m (sym (lookup_there k j w m there) ∙ e)))
  ]

-- Lookups after an insertion, for keys whose test decides equality.
module _ {A : Type 0} (same : A → A → Bool)
    (same_iff : (a b : A) → (same a b ≡ true) ↔ (a ≡ b)) where
  same_false : (i j k : A) → same j k ≡ false → same k i ≡ true → same j i ≡ false
  same_false i j k other here = elim (Bool-cases (same j i)) [
    | inl equal ↦
        let e : j ≡ k = (same_iff j i).0 equal ∙ sym ((same_iff k i).0 here) in
        absurd (false≢true (sym other ∙ (same_iff j k).1 e))
    | inr differ ↦ differ
  ]

  pub lookup-insert_other :
      {T : Type 0} (j k : A) (l : List T) (m : List (A × List T))
      → same j k ≡ false
      → lookup same j m ≡ lookup same j (insert same k l m)
  unfolding lookup insert
  lookup-insert_other j k l [] other = rw other refl
  lookup-insert_other j k l ((i, w) ∷ m) other = elim (Bool-cases (same k i)) [
    | inl here ↦ rw (here, same_false i j k other here) refl
    | inr there ↦
        rw there (ap (λ r. if same j i then some w else r) (lookup-insert_other j k l m other))
  ]
