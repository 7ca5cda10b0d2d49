-- ===== src/Sssa/Combine/Loops.antt =====
-- The product loop of `Combine` is the product over all other points.
use address_verification.Base.{
  ℕ, suc, ◌+◌, ◌*◌, ◌<◌, ◌≡◌, refl, ap, List, [], ◌∷◌, ◌++◌, map, true, false, arith, length, All,
  ◌==◌,
}
use address_verification.Base.Int.{ℤ, pos, negsuc, ◌-ℤ◌, ◌*ℤ◌, emod, -ℤ_parts, *ℤ_parts}
use address_verification.Base.Mod.{
  Cong, ◌⨾◌, Cong-refl, Cong-of_eq, Cong-symm, Cong-*, Cong-+_cancel,
}
use address_verification.Base.Residues.{
  IsUnit, neg_mod, sub_mod, neg_mod_lem, sub_mod_lem, IsUnit-cancel, IsUnit-Cong, IsUnit-one,
  IsUnit-*,
}
use address_verification.Base.Euclid.{emod-Cong_of}
use address_verification.Sssa.Field.{mod_inverse}
use address_verification.Sssa.Field.Inverse.{mod_inverse-inverts}
use address_verification.Sssa.Lagrange.{weight}
use address_verification.Sssa.Combine.{product_loop}
use mathlib.Core.List.{map-append}

-- The loop without its test on the index.
factors : ℕ → ℤ → List ℤ → ℕ × ℕ → ℕ × ℕ
factors prime origin [] acc = acc
factors prime origin (current ∷ xs) (numerator, denominator) = factors prime origin xs (
  emod (pos numerator *ℤ (current *ℤ negsuc 0)) prime,
  emod (pos denominator *ℤ (origin -ℤ current)) prime,
)

factors-append :
    (p : ℕ) (o : ℤ) (xs ys : List ℤ) (acc : ℕ × ℕ)
    → factors p o (xs ++ ys) acc ≡ factors p o ys (factors p o xs acc)
unfolding factors
factors-append p o [] ys acc = refl
factors-append p o (x ∷ xs) ys acc = factors-append p o xs ys _

-- Behind the point itself no index is skipped.
product_loop_behind :
    (p : ℕ) (o : ℤ) (i k : ℕ) (xs : List ℤ) (acc : ℕ × ℕ)
    → i < k
    → product_loop p o i k xs acc ≡ factors p o xs acc
unfolding product_loop factors
product_loop_behind p o i k [] acc h = refl
product_loop_behind p o i k (x ∷ xs) acc h =
    rw (beyond k i h) (product_loop_behind p o i (k + 1) xs _ (omega arith))
  where
    beyond : (a b : ℕ) → b < a → (a == b) ≡ false
    beyond a b q = ground arith

-- Up to the point and over it.
product_loop_around :
    (p : ℕ) (o : ℤ) (i k : ℕ) (xs : List ℤ) (x : ℤ) (ys : List ℤ) (acc : ℕ × ℕ)
    → k + length xs ≡ i
    → product_loop p o i k (xs ++ x ∷ ys) acc ≡ factors p o (xs ++ ys) acc
unfolding product_loop factors
product_loop_around p o i k [] x ys acc h =
    rw (at k i (omega arith), product_loop) (product_loop_behind p o i (k + 1) ys _ (omega arith))
  where
    at : (a b : ℕ) → a ≡ b → (a == b) ≡ true
    at a b q = ground arith
product_loop_around p o i k (z ∷ xs) x ys acc h =
    rw (before k i (omega arith), product_loop)
      (product_loop_around p o i (k + 1) xs x ys _ (omega arith))
  where
    before : (a b : ℕ) → a < b → (a == b) ≡ false
    before a b q = ground arith

negs : ℕ → List ℕ → ℕ
negs p [] = 1
negs p (y ∷ ys) = neg_mod p y * negs p ys

subs : ℕ → ℕ → List ℕ → ℕ
subs p x [] = 1
subs p x (y ∷ ys) = sub_mod p x y * subs p x ys

module _ {p : ℕ} (p_pos : 0 < p) where
  numerator_step : (n y : ℕ) → Cong p (emod (pos n *ℤ (pos y *ℤ negsuc 0)) p) (n * neg_mod p y)
  numerator_step n y = Cong-+_cancel (n * y) (
      emod-Cong_of p_pos _ 0 (n * y) (
        omega (
          arith,
          *ℤ_parts (pos n) (pos y *ℤ negsuc 0),
          ap (λ (t : ℕ). n * t) (*ℤ_parts (pos y) (negsuc 0)),
        ))
      ⨾ Cong-symm (
          Cong-of_eq {b = n * (neg_mod p y + y)} (omega arith)
          ⨾ Cong-* (Cong-refl n) (neg_mod_lem p_pos y)
          ⨾ Cong-of_eq (omega arith)))

  denominator_step : (d x y : ℕ) → Cong p (emod (pos d *ℤ (pos x -ℤ pos y)) p) (d * sub_mod p x y)
  denominator_step d x y = Cong-+_cancel (d * y) (
      emod-Cong_of p_pos _ (d * x) (d * y) (
        omega (
          arith,
          *ℤ_parts (pos d) (pos x -ℤ pos y),
          ap (λ (t : ℕ). d * t) (-ℤ_parts (pos x) (pos y)),
        ))
      ⨾ Cong-symm (
          Cong-of_eq {b = d * (sub_mod p x y + y)} (omega arith)
          ⨾ Cong-* (Cong-refl d) (sub_mod_lem p_pos x y)))

  -- The two products of the loop, over coordinates that are not negative.
  factors_lem :
      (x : ℕ) (ys : List ℕ) (n d : ℕ)
      → Cong p (factors p (pos x) (map pos ys) (n, d)).0 (n * negs p ys)
        × Cong p (factors p (pos x) (map pos ys) (n, d)).1 (d * subs p x ys)
  unfolding factors negs subs
  factors_lem x [] n d = (Cong-of_eq (omega arith), Cong-of_eq (omega arith))
  factors_lem x (y ∷ ys) n d =
      let (num, den) =
        factors_lem x ys (emod (pos n *ℤ (pos y *ℤ negsuc 0)) p)
          (emod (pos d *ℤ (pos x -ℤ pos y)) p) in
      (
        num ⨾ Cong-* (numerator_step n y) (Cong-refl _) ⨾ Cong-of_eq (omega arith),
        den ⨾ Cong-* (denominator_step d x y) (Cong-refl _) ⨾ Cong-of_eq (omega arith),
      )

  abbrev pub inv : ℕ → ℕ
  inv a = mod_inverse p (pos a)

  -- One inverse of the product serves for the product of the inverses.
  invs : ℕ → List ℕ → ℕ
  invs x [] = 1
  invs x (y ∷ ys) = inv (sub_mod p x y) * invs x ys

  weight-invs : (x : ℕ) (ys : List ℕ) → weight p_pos inv x ys ≡ negs p ys * invs x ys
  unfolding invs negs
  weight-invs x [] = omega arith
  weight-invs x (y ∷ ys) =
      omega (arith, ap (λ (t : ℕ). neg_mod p y * inv (sub_mod p x y) * t) (weight-invs x ys))

  subs-IsUnit :
      (x : ℕ) (ys : List ℕ) → All (λ y. IsUnit p (sub_mod p x y)) ys → IsUnit p (subs p x ys)
  unfolding subs
  subs-IsUnit x [] _ = IsUnit-one
  subs-IsUnit x (y ∷ ys) (u, us) = IsUnit-* u (subs-IsUnit x ys us)

  subs-invs :
      (x : ℕ) (ys : List ℕ)
      → All (λ y. IsUnit p (sub_mod p x y)) ys
      → Cong p (subs p x ys * invs x ys) 1
  unfolding subs invs
  subs-invs x [] _ = Cong-of_eq (omega arith)
  subs-invs x (y ∷ ys) (u, us) =
      Cong-of_eq {b = sub_mod p x y * inv (sub_mod p x y) * (subs p x ys * invs x ys)} (omega arith)
      ⨾ Cong-* (mod_inverse-inverts p _ p_pos u) (subs-invs x ys us)
      ⨾ Cong-of_eq {a = 1 * 1} (omega arith)

  -- The inverse of the loop's denominator.
  inv-factors :
      (x d : ℕ) (ys : List ℕ)
      → All (λ y. IsUnit p (sub_mod p x y)) ys
      → Cong p d (1 * subs p x ys)
      → Cong p (inv d) (invs x ys)
  inv-factors x d ys us same = IsUnit-cancel unit (
      Cong-* (Cong-symm subs_d) (Cong-refl (inv d))
      ⨾ mod_inverse-inverts p d p_pos (IsUnit-Cong (Cong-symm subs_d) unit)
      ⨾ Cong-symm (subs-invs x ys us))
    where
      unit : IsUnit p (subs p x ys)
      unit = subs-IsUnit x ys us

      subs_d : Cong p d (subs p x ys)
      subs_d = same ⨾ Cong-of_eq (omega arith)

  length-map_pos : (xs : List ℕ) → length (map pos xs) ≡ length xs
  length-map_pos [] = refl
  length-map_pos (x ∷ xs) = ap suc (length-map_pos xs)

  product_loop-factors :
      (x : ℕ) (xs ys : List ℕ)
      → product_loop p (pos x) (length xs) 0 (map pos (xs ++ x ∷ ys)) (1, 1)
        ≡ factors p (pos x) (map pos (xs ++ ys)) (1, 1)
  product_loop-factors x xs ys =
      rw (map-append, map-append)
        (product_loop_around p (pos x) (length xs) 0 (map pos xs) (pos x) (map pos ys) (1, 1)
          (omega (arith, length-map_pos xs)))

  -- What `Combine` multiplies a y-coordinate by is the weight of the point.
  pub product_loop-weight :
      (x : ℕ) (xs ys : List ℕ)
      → All (λ y. IsUnit p (sub_mod p x y)) (xs ++ ys)
      → let (num, den) = product_loop p (pos x) (length xs) 0 (map pos (xs ++ x ∷ ys)) (1, 1) in
        Cong p (num * inv den) (weight p_pos inv x (xs ++ ys))
  product_loop-weight x xs ys us =
      let (num, den) = factors_lem x (xs ++ ys) 1 1 in
      rw (product_loop-factors x xs ys) (
        Cong-* num (inv-factors x _ (xs ++ ys) us den)
        ⨾ Cong-of_eq (omega (arith, weight-invs x (xs ++ ys))))
