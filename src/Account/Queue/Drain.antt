-- ===== src/Account/Queue/Drain.antt =====
-- The loop of a caller, who takes the transactions of a queue by `Peek` and `Shift`.
use address_verification.Base.{
  ℕ, zero, suc, ◌+◌, ◌≤◌, ◌≡◌, refl, List, [], ◌∷◌, none, some, Bool, arith, ap, get_elem?, inl,
  inr, ◌⊎◌, ◌<◌,
}
use address_verification.Account.Heap.Order.{total}
use address_verification.Account.Queue.{Queue, peek, shift}
use address_verification.Account.Queue.Content.{total_map, holds}
use address_verification.Account.Queue.Steps.{IsValid, shift-Without}

module _ {T : Type 0} where
  heads-cases : (s : List T) → (s ≡ []) ⊎ ((x : T) × (get_elem? s 0 ≡ some x))
  heads-cases [] = inl refl
  heads-cases (x ∷ s) = inr (x, refl)

  one_more : (s : List T) (x : T) → get_elem? s 0 ≡ some x → 0 < total (λ _. 1) s
  one_more [] x e = absurd (ground arith)
  one_more (y ∷ s) x e = omega arith

module _ {A T : Type 0} (same : A → A → Bool) (price : T → ℕ) (sender : T → A) where
  -- The transactions taken and the queue left, with fuel for the rounds.
  unfoldable pub drain : ℕ → Queue A T → List T × Queue A T
  drain zero q = ([], q)
  drain (suc fuel) q = elim (peek q) [
    | none ↦ ([], q)
    | some x ↦ elim (shift same price sender q) [
      | none ↦ ([], q)
      | some t ↦ let (taken, left) = drain fuel t in (x ∷ taken, left)
    ]
  ]

  -- A loop that has as many rounds as the queue has transactions, at least, ends without a head; the
  -- transactions taken and those left are those of the queue, however they are weighed.
  pub drain-ends :
      (fuel : ℕ) (q : Queue A T)
      → IsValid price q
      → holds (λ _. 1) q ≤ fuel
      → (peek (drain fuel q).1 ≡ none)
        × ((f : T → ℕ) → total f (drain fuel q).0 + total_map f (drain fuel q).1.txs ≡ holds f q)
  unfolding drain
  drain-ends zero q v enough = elim (heads-cases q.heads) [
    | inl e ↦ (ap (λ s. get_elem? s 0) e, λ f. omega (arith, ap (total f) e))
    | inr (x, e) ↦ absurd (omega (arith, one_more q.heads x e))
  ]
  drain-ends (suc fuel) q v enough = elim (heads-cases q.heads) [
    | inl e ↦
        rw (ap (λ s. get_elem? s 0) e, drain)
          (ap (λ s. get_elem? s 0) e, λ f. omega (arith, ap (total f) e))
    | inr (x, e) ↦
        let (t, run, w) = shift-Without same price sender q x v e in
        let (ended, kept) = drain-ends fuel t w.valid (omega (arith, w.holds_lem (λ _. 1))) in
        rw (e, run, drain) (ended, λ f. omega (arith, kept f, w.holds_lem f))
  ]
