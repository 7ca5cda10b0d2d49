-- ===== src/Sssa/Field/Horner.antt =====
-- `evaluatePolynomial` against the plain value of a polynomial.
use address_verification.Base.{
  ℕ, ◌+◌, ◌*◌, ◌%◌, ◌<◌, ◌≡◌, refl, sym, ◌∙◌, List, [], ◌∷◌, ◌++◌, reverse, some, arith,
}
use address_verification.Base.Mod.{Cong, ◌⨾◌, Cong-mod, Cong-refl, Cong-of_eq, Cong-+, Cong-*}
use address_verification.Sssa.Lagrange.{value}
use address_verification.Sssa.Field.{horner, horner_from, evaluate_polynomial}
use native.Mathlib.Nat.{mod-lt}
use mathlib.Core.List.{reverse-cons}

horner-append :
    (p x c : ℕ) (ys : List ℕ) (r : ℕ) → horner p x (ys ++ c ∷ []) r ≡ (horner p x ys r * x + c) % p
unfolding horner
horner-append p x c [] r = refl
horner-append p x c (y ∷ ys) r = horner-append p x c ys ((r * x + y) % p)

horner_from-append :
    (p x c : ℕ) (ys : List ℕ) (r : ℕ)
    → horner_from p x ys ≡ some r
    → horner_from p x (ys ++ c ∷ []) ≡ some ((r * x + c) % p)
unfolding horner_from
horner_from-append p x c [] r h = cc
horner_from-append p x c (y ∷ ys) r h = ground (arith, horner-append p x c ys y)

Evaluates : ℕ → ℕ → List ℕ → ℕ → Type 0
Evaluates p x cs c =
    (r : ℕ) × (evaluate_polynomial p (c ∷ cs) x ≡ some r)
    × Cong p r (value (c ∷ cs) x)
    × (c < p → r < p)

evaluates : {p : ℕ} → 0 < p → (c : ℕ) (cs : List ℕ) (x : ℕ) → Evaluates p x cs c
unfolding Evaluates evaluate_polynomial
evaluates {p} p_pos c [] x = (c, refl, Cong-of_eq (omega arith), λ h. h)
evaluates {p} p_pos c (d ∷ cs) x = next (evaluates p_pos d cs x)
  where
    next : Evaluates p x cs d → Evaluates p x (d ∷ cs) c
    next (r, e, same, _) = (
      (r * x + c) % p,
      rw reverse-cons (horner_from-append p x c (reverse (d ∷ cs)) r e),
      Cong-mod _ ⨾ Cong-+ (Cong-* same (Cong-refl x)) (Cong-refl c) ⨾ Cong-of_eq (omega arith),
      λ _. mod-lt _ p_pos,
    )

-- On a polynomial with a constant term below the prime, which is not 0, `evaluatePolynomial` returns
-- a residue, and it is the polynomial's value modulo the prime.
pub evaluate_polynomial-value :
    {p : ℕ}
    → 0 < p
    → (c : ℕ) (cs : List ℕ) (x : ℕ) → c < p
    → (r : ℕ) × (evaluate_polynomial p (c ∷ cs) x ≡ some r) × Cong p r (value (c ∷ cs) x) × (r < p)
unfolding Evaluates
evaluate_polynomial-value p_pos c cs x h =
    let (r, e, same, below) = evaluates p_pos c cs x in (r, e, same, below h)

some_inj : {a b : ℕ} → some a ≡ some b → a ≡ b
some_inj h = cc

-- Whatever it returns for such a polynomial is a residue.
pub evaluate_polynomial-lt :
    {p : ℕ} (c : ℕ) (cs : List ℕ) (x : ℕ) {y : ℕ}
    → c < p
    → evaluate_polynomial p (c ∷ cs) x ≡ some y
    → y < p
evaluate_polynomial-lt {p} c cs x {y} small e =
    let (r, e', _, below) = evaluate_polynomial-value p_pos c cs x small in
    let same : y ≡ r = some_inj (sym e ∙ e') in omega arith
  where
    p_pos : 0 < p
    p_pos = omega arith
