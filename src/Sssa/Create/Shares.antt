-- ===== src/Sssa/Create/Shares.antt =====
-- What `CreateFromInt` shares out: points of one polynomial, printed.
use address_verification.Base.{
  ℕ, zero, suc, ◌<◌, ◌≡◌, refl, ap, List, [], ◌∷◌, ◌++◌, map, some, arith, ltb, length, All, Bytes,
  Bool-cases, inl, inr, append-nil, append_assoc, sym, ◌∙◌, true,
}
use address_verification.Sssa.Field.{default_prime, evaluate_polynomial}
use address_verification.Sssa.Field.Horner.{evaluate_polynomial-lt}
use address_verification.Sssa.Draw.{
  drawn, draw_until, random_in_limit, is_fresh, is_fresh_coefficient, or_panicked,
}
use address_verification.Sssa.Draw.Post.{
  Post, Post->>=, Post-or_panicked, Post-draw_until, Post-drawn, IsDrawn,
}
use address_verification.Sssa.Create.{
  Created, Numbered, coefficients, polynomial_of, polynomials, make_share, make_shares, pointers,
  share_out, create_from_int,
}
use mathlib.Core.Path.{subst}
use address_verification.Sssa.Combine.Interpolation.{xs_of}
use address_verification.Sssa.Combine.Recovery.{print_share, IsResidue}

-- Each coordinate is fresh when it is drawn: it is not one of the numbers used up to then.
abbrev pub AreFresh : List ℕ → List ℕ → Type 0
AreFresh numbers [] = Unit
AreFresh numbers (x ∷ xs) = (is_fresh numbers x ≡ true) × AreFresh (numbers ++ x ∷ []) xs

-- The numbers used, and some more behind them.
abbrev Grown : List ℕ → List ℕ → Type 0
Grown numbers out = (more : List ℕ) × (out ≡ numbers ++ more)

Post-coefficients :
    (count : ℕ) (numbers draws : List ℕ)
    → All IsDrawn draws
    → Post
        (λ out rest. (length out.0 ≡ count) × Grown numbers out.1 × All IsDrawn rest)
        (coefficients count numbers draws)
unfolding coefficients
Post-coefficients zero numbers draws h = (refl, ([], sym (append-nil numbers)), h)
Post-coefficients (suc count) numbers draws h =
    Post->>= _ _ (draw_until (is_fresh_coefficient numbers)) _ draws (Post-draw_until _ draws h)
      λ number mid (_, _, h₁).
        Post->>= _ _ (coefficients count (numbers ++ number ∷ [])) _ mid
          (Post-coefficients count (numbers ++ number ∷ []) mid h₁)
          λ out rest (size, (more, grown), h₂).
            (ap suc size, (number ∷ more, grown ∙ append_assoc numbers (number ∷ []) more), h₂)

module _ (c : ℕ) (cs : List ℕ) (small : c < default_prime) where
  abbrev pub OnPolynomial : ℕ × ℕ → Type 0
  OnPolynomial point = evaluate_polynomial default_prime (c ∷ cs) point.0 ≡ some point.1

  -- A printed point whose coordinate is fresh, and is one of the numbers used from then on.
  abbrev IsShare : List ℕ → Numbered Bytes → Type 0
  IsShare numbers out =
      (point : ℕ × ℕ) × (out.0 ≡ print_share point)
      × IsResidue point
      × OnPolynomial point
      × (is_fresh numbers point.0 ≡ true)
      × (out.1 ≡ numbers ++ point.0 ∷ [])

  Post-make_share :
      (numbers draws : List ℕ)
      → All IsDrawn draws
      → Post
          (λ out rest. IsShare numbers out × All IsDrawn rest)
          (make_share ((c ∷ cs) ∷ []) numbers draws)
  unfolding make_share
  Post-make_share numbers draws h =
      Post->>= _ _ (draw_until (is_fresh numbers)) _ draws (Post-draw_until _ draws h)
        λ x mid (fresh, hx, h₁).
          Post->>=
            (λ y rest. (evaluate_polynomial default_prime (c ∷ cs) x ≡ some y) × All IsDrawn rest) _
            (or_panicked (evaluate_polynomial default_prime (c ∷ cs) x)) _ mid
            (Post-or_panicked
              (λ y rest. (evaluate_polynomial default_prime (c ∷ cs) x ≡ some y) × All IsDrawn rest)
              (evaluate_polynomial default_prime (c ∷ cs) x) mid λ y e. (e, h₁))
            λ y rest (e, h₂). (
              (
                (x, y),
                append-nil (print_share (x, y)),
                (omega arith, evaluate_polynomial-lt c cs x small e),
                e,
                fresh,
                refl,
              ),
              h₂,
            )

  -- Shares that are printed points of the polynomial.
  abbrev pub Sharing : List ℕ → ℕ → List Bytes → Type 0
  Sharing numbers count shares =
      (points : List (ℕ × ℕ)) × (shares ≡ map print_share points)
      × (length points ≡ count)
      × All IsResidue points
      × All OnPolynomial points
      × AreFresh numbers (xs_of points)

  Post-make_shares :
      (count : ℕ) (numbers draws : List ℕ)
      → All IsDrawn draws
      → Post
          (λ out rest. Sharing numbers count out.0)
          (make_shares count ((c ∷ cs) ∷ []) numbers draws)
  unfolding make_shares
  Post-make_shares zero numbers draws h = ([], refl, refl, tt, tt, tt)
  Post-make_shares (suc count) numbers draws h =
      Post->>= _ _ (make_share ((c ∷ cs) ∷ []) numbers) _ draws (Post-make_share numbers draws h)
        λ share mid ((point, printed, residue, on, fresh, used), h₁).
          Post->>= _ _ (make_shares count ((c ∷ cs) ∷ []) share.1) _ mid
            (Post-make_shares count share.1 mid h₁)
            λ out rest (points, e, size, residues, ons, fresh_rest). (
              point ∷ points,
              (λ i. printed i ∷ e i),
              ap suc size,
              (residue, residues),
              (on, ons),
              (fresh, subst (λ l. AreFresh l (xs_of points)) used fresh_rest),
            )

-- What a call of `CreateFromInt` has made.
pub record IsSharing (minimum shares : ℕ) (made : Created) : Type 0 where
  pub secret : ℕ
  pub coefs : List ℕ
  pub small : secret < default_prime
  pub polynomial_lem : made.polynomial ≡ secret ∷ coefs
  pub degree : suc (length coefs) ≡ minimum
  pub used : List ℕ
  pub sharing : Sharing secret coefs small (0 ∷ used) shares made.shares
  pub pointer_lem : pointers shares 1 ((secret ∷ coefs) ∷ []) ≡ some made.pointer

-- The one polynomial of a secret with one part.
abbrev OnePolynomial : ℕ → ℕ → List (List ℕ) → Type 0
OnePolynomial degree secret out =
    (cs : List ℕ) × (out ≡ (secret ∷ cs) ∷ []) × (suc (length cs) ≡ degree)

Post-polynomials :
    (minimum secret : ℕ) (draws : List ℕ)
    → All IsDrawn draws
    → Post
        (λ out rest. OnePolynomial minimum secret out.0 × Grown (0 ∷ []) out.1 × All IsDrawn rest)
        (polynomials minimum (secret ∷ []) (0 ∷ []) draws)
unfolding polynomials polynomial_of
Post-polynomials zero secret draws h = tt
Post-polynomials (suc degree) secret draws h =
    Post->>=
      (λ (first : Numbered (List ℕ)) rest.
        ((cs : List ℕ) × (first.0 ≡ secret ∷ cs) × (length cs ≡ degree))
        × Grown (0 ∷ []) first.1
        × All IsDrawn rest)
      _ (polynomial_of (suc degree) secret (0 ∷ [])) _ draws
      (Post->>= _ _ (coefficients degree (0 ∷ [])) _ draws
        (Post-coefficients degree (0 ∷ []) draws h)
        λ out rest (size, grown, h₁). ((out.0, refl, size), grown, h₁))
      λ first rest ((cs, e, size), grown, h₁). ((cs, (λ i. e i ∷ []), ap suc size), grown, h₁)

Post-share_out :
    (minimum shares secret : ℕ) (draws : List ℕ)
    → secret < default_prime
    → All IsDrawn draws
    → Post
        (λ made rest. IsSharing minimum shares made)
        (share_out minimum shares (secret ∷ []) draws)
unfolding share_out
Post-share_out minimum shares secret draws small h =
    Post->>= _ _ (polynomials minimum (secret ∷ []) (0 ∷ [])) _ draws
      (Post-polynomials minimum secret draws h)
      λ polys mid ((cs, e, size), (more, grown), h₁). rw e (
        Post->>= _ _ (make_shares shares ((secret ∷ cs) ∷ []) polys.1) _ mid
          (Post-make_shares secret cs small shares polys.1 mid h₁)
          λ result mid₂ sharing.
            Post->>= (λ values _. pointers shares 1 ((secret ∷ cs) ∷ []) ≡ some values) _
              (or_panicked (pointers shares 1 ((secret ∷ cs) ∷ []))) _ mid₂
              (Post-or_panicked _ (pointers shares 1 ((secret ∷ cs) ∷ [])) mid₂ λ values k. k)
              λ values rest k. record {
                secret = secret;
                coefs = cs;
                small = small;
                polynomial_lem = refl;
                degree = size;
                used = more;
                sharing = subst (λ l. Sharing secret cs small l shares result.0) grown sharing;
                pointer_lem = k;
              })

Post-create_from_int :
    (minimum shares : ℕ) (draws : List ℕ)
    → All IsDrawn draws
    → Post (λ made rest. IsSharing minimum shares made) (create_from_int minimum shares draws)
unfolding create_from_int random_in_limit
Post-create_from_int minimum shares draws h = elim (Bool-cases (ltb shares minimum)) [
  | inl refused ↦ rw refused tt
  | inr allowed ↦ rw allowed (
      Post->>= _ _ random_in_limit _ draws (Post-draw_until _ draws h)
        λ secret rest (_, small, h₁). Post-share_out minimum shares secret rest (omega arith) h₁)
]

-- Whenever `CreateFromInt` succeeds it has made as many shares as asked for. They are the printed
-- points of one polynomial with `minimum` coefficients, which it returns, at coordinates and with
-- values below the prime, and the pointers are the polynomial's values at 1, 2, and so on.
pub create_from_int-IsSharing :
    (minimum shares : ℕ) (draws : List ℕ) {made : Created} {rest : List ℕ}
    → All IsDrawn draws
    → create_from_int minimum shares draws ≡ drawn made rest
    → IsSharing minimum shares made
create_from_int-IsSharing minimum shares draws h e =
    Post-drawn (λ made rest. IsSharing minimum shares made) _ e
      (Post-create_from_int minimum shares draws h)
