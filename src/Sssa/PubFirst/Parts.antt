-- ===== src/Sssa/PubFirst/Parts.antt =====
-- The parts that `CombinePubFirst` computes are those of `Combine`.
use address_verification.Base.{
  ℕ, zero, suc, ◌+◌, ◌%◌, ◌<◌, ◌≡◌, ◌⊎◌, inl, inr, refl, sym, ap, ◌∙◌, List, [], ◌∷◌, Option, some,
  none, arith, get_elem?,
}
use address_verification.Base.Int.{ℤ, pos, emod}
use address_verification.Base.Outcome.{Outcome, ok, err, panic, ◌>>=◌, or_panic}
use address_verification.Sssa.Field.{default_prime}
use address_verification.Sssa.Combine.{
  Error, Point, sum_loop, part, abscissae, interpolate, interpolate_parts,
}
use address_verification.Sssa.Keys.{get_public_key, generate_priv_key}
use address_verification.Sssa.PubFirst.{Crypto, pub_first_loop, pub_first_parts}
use address_verification.Base.Euclid.{emod-lt}
use native.Mathlib.Nat.{mod-eq_of_lt}

-- What a term leaves in the number is the term.
left_lem : (order p : ℕ) (z : ℤ) → 0 < p → order ≡ p → emod (pos (emod z p)) order ≡ emod z p
unfolding emod
left_lem order p z p_pos h = ap (λ (t : ℕ). emod z p % t) h ∙ mod-eq_of_lt (emod-lt p_pos z)

prime_pos : 0 < default_prime
prime_pos = omega arith

-- Two keys are there.
abbrev pub HasTwo : {P : Type 0} → List P → (ℕ → P) → Type 0
HasTwo {P} keys of = (a b : ℕ) × (rest : List P) × (keys ≡ of a ∷ of b ∷ rest)

-- Two ways to the parts of the secret fail alike, or give the same parts, the first with two keys.
abbrev pub Agrees :
    {P : Type 0} → (ℕ → P) → Outcome Error (List P × List ℕ) → Outcome Error (List ℕ) → Type 0
Agrees {P} of (ok (keys, parts)) r = (r ≡ ok parts) × HasTwo keys of
Agrees of (err e) r = r ≡ err e
Agrees of panic r = r ≡ panic

-- How the points of a part are read: all there, with the first two, or not.
data Reading : Outcome Error (List Point) → Type 0 where
  failed : (e : Error) → Reading (err e)
  panicked : Reading panic
  two : (p q : Point) (points : List Point) → Reading (ok (p ∷ q ∷ points))

Reading-chain :
    (x y : Option Point) (r : Outcome Error (List Point))
    → Reading (do
      point ← or_panic x
      points ← (do point₁ ← or_panic y; points ← r; ok (point₁ ∷ points))
      ok (point ∷ points))
Reading-chain none y r = panicked
Reading-chain (some p) none r = panicked
Reading-chain (some p) (some q) (ok points) = two p q points
Reading-chain (some p) (some q) (err e) = failed e
Reading-chain (some p) (some q) panic = panicked

Reading-part :
    (j : ℕ) (s t : List Point) (secrets : List (List Point)) → Reading (part j (s ∷ t ∷ secrets))
unfolding part
Reading-part j s t secrets = Reading-chain (get_elem? s j) (get_elem? t j) (part j secrets)

-- A part in front of parts that agree.
Agrees-more :
    {P : Type 0} (of : ℕ → P) (x y : ℕ) (r : Outcome Error (List P × List ℕ))
    (r₁ : Outcome Error (List ℕ))
    → x ≡ y
    → Agrees of r r₁
    → Agrees of (do rest ← r; ok (rest.0, x ∷ rest.1)) (do rest ← r₁; ok (y ∷ rest))
Agrees-more of x y (ok (keys, parts)) r₁ h (e, has) =
    (rw e (ap (λ (t : ℕ). ok (t ∷ parts)) (sym h)), has)
Agrees-more of x y (err e) r₁ h k = rw k refl
Agrees-more of x y panic r₁ h k = rw k refl

module _ {P : Type 0} (crypto : Crypto P) where
  -- The sum of the terms is the one of `Combine`.
  pub_first_loop-sum_loop :
      (xs : List ℤ) (i : ℕ) (points : List Point) (secret : ℕ)
      → crypto.order ≡ default_prime
      → (pub_first_loop crypto default_prime xs i points secret).1
        ≡ sum_loop default_prime xs i points secret
  unfolding pub_first_loop sum_loop get_public_key generate_priv_key
  pub_first_loop-sum_loop xs i [] secret h = refl
  pub_first_loop-sum_loop xs i ((x, y) ∷ points) secret h =
      ap
        (λ (t : ℕ).
          (pub_first_loop crypto default_prime xs (i + 1) points ((secret + t) % default_prime)).1)
        (left_lem crypto.order default_prime _ prime_pos h)
      ∙ pub_first_loop-sum_loop xs (i + 1) points _ h

  pub_first_loop-HasTwo :
      (xs : List ℤ) (p q : Point) (points : List Point)
      → HasTwo (pub_first_loop crypto default_prime xs 0 (p ∷ q ∷ points) 0).0 crypto.base_mult
  unfolding pub_first_loop get_public_key generate_priv_key
  pub_first_loop-HasTwo xs (x, y) (x₁, y₁) points = (_, _, _, refl)

  -- One more part.
  Agrees-step :
      (points : Outcome Error (List Point))
      → Reading points
      → crypto.order ≡ default_prime
      → (rest : List P → Outcome Error (List P × List ℕ)) (rest₁ : Outcome Error (List ℕ))
      → ((keys : List P) → HasTwo keys crypto.base_mult → Agrees crypto.base_mult (rest keys) rest₁)
      → Agrees crypto.base_mult
          (do
            points ← points
            rest ← rest (pub_first_loop crypto default_prime (abscissae points) 0 points 0).0
            ok (
              rest.0,
              (pub_first_loop crypto default_prime (abscissae points) 0 points 0).1 ∷ rest.1,
            ))
          (do points ← points; rest ← rest₁; ok (interpolate default_prime points ∷ rest))
  unfolding interpolate
  Agrees-step _ (failed e) h rest rest₁ agree = refl
  Agrees-step _ panicked h rest rest₁ agree = refl
  Agrees-step _ (two p q points) h rest rest₁ agree =
      Agrees-more crypto.base_mult _ _ (rest _) rest₁
        (pub_first_loop-sum_loop (abscissae (p ∷ q ∷ points)) 0 (p ∷ q ∷ points) 0 h)
        (agree _ (pub_first_loop-HasTwo (abscissae (p ∷ q ∷ points)) p q points))

  pub Agrees-pub_first_parts :
      (count j : ℕ) (s t : List Point) (secrets : List (List Point)) (keys : List P)
      → crypto.order ≡ default_prime
      → (0 < count) ⊎ HasTwo keys crypto.base_mult
      → Agrees crypto.base_mult
          (pub_first_parts crypto count j (s ∷ t ∷ secrets) keys)
          (interpolate_parts count j (s ∷ t ∷ secrets))
  unfolding pub_first_parts interpolate_parts
  Agrees-pub_first_parts zero j s t secrets keys h (inl k) = absurd (omega arith)
  Agrees-pub_first_parts zero j s t secrets keys h (inr has) = (refl, has)
  Agrees-pub_first_parts (suc count) j s t secrets keys h _ =
      Agrees-step _ (Reading-part j s t secrets) h _ _
        (λ keys has. Agrees-pub_first_parts count (j + 1) s t secrets keys h (inr has))
