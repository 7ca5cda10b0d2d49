-- ===== src/Sssa/Lagrange.antt =====
-- Lagrange interpolation at zero over the numbers modulo `p`, as a plain recursion on the points:
-- the reference that the loops of sssa/sssa.go are held to.
use address_verification.Base.{
  ℕ, ◌+◌, ◌*◌, ◌<◌, ◌≤◌, ◌≡◌, refl, ap, suc, List, [], ◌∷◌, arith, All, length,
}
use address_verification.Base.Mod.{
  Cong, ◌⨾◌, Cong-refl, Cong-of_eq, Cong-symm, Cong-+, Cong-*, Cong-+_cancel,
}
use address_verification.Base.Residues.{
  IsUnit, neg_mod, sub_mod, neg_mod_lem, sub_mod_lem, IsUnit-cancel,
}
use mathlib.Core.Path.{fun_ext}

-- The value at `t` of the polynomial with these coefficients, the constant first.
abbrev pub value : List ℕ → ℕ → ℕ
value [] t = 0
value (c ∷ cs) t = c + t * value cs t

-- Every two of the coordinates differ by a unit.
abbrev pub Apart : ℕ → List ℕ → Type 0
Apart p [] = Unit
Apart p (x ∷ xs) = All (λ y. IsUnit p (sub_mod p x y) × IsUnit p (sub_mod p y x)) xs × Apart p xs

-- Each coordinate of the list lies a unit behind `x`.
units_to :
    (p x : ℕ) (xs : List ℕ)
    → All (λ y. IsUnit p (sub_mod p x y) × IsUnit p (sub_mod p y x)) xs
    → All (λ y. IsUnit p (sub_mod p y x)) xs
units_to p x [] _ = tt
units_to p x (y ∷ ys) (h, hs) = (h.1, units_to p x ys hs)

All-of_All {ℓ} : (P : ℕ → Type ℓ) (xs : List ℕ) → ((t : ℕ) → P t) → All P xs
All-of_All P [] h = tt
All-of_All P (x ∷ xs) h = (h x, All-of_All P xs h)

-- Synthetic division by (t - z).
abbrev quotient : List ℕ → ℕ → List ℕ
quotient [] z = []
quotient (c ∷ []) z = []
quotient (c ∷ d ∷ cs) z = value (d ∷ cs) z ∷ quotient (d ∷ cs) z

length-quotient : (c : ℕ) (cs : List ℕ) (z : ℕ) → length (quotient (c ∷ cs) z) ≡ length cs
length-quotient c [] z = refl
length-quotient c (d ∷ cs) z = ap suc (length-quotient d cs z)

value-quotient :
    {p : ℕ}
    → 0 < p
    → (cs : List ℕ) (z t : ℕ)
    → Cong p (value cs t) (value cs z + sub_mod p t z * value (quotient cs z) t)
value-quotient p_pos [] z t = Cong-of_eq (omega arith)
value-quotient p_pos (c ∷ []) z t = Cong-of_eq (omega arith)
value-quotient {p} p_pos (c ∷ d ∷ cs) z t =
    Cong-+ (Cong-refl c) (Cong-* (Cong-refl t) (value-quotient p_pos (d ∷ cs) z t))
    ⨾ Cong-of_eq
        {b = t * value (d ∷ cs) z + (c + t * (sub_mod p t z * value (quotient (d ∷ cs) z) t))}
        (omega arith)
    ⨾ Cong-+ (Cong-* (Cong-symm (sub_mod_lem p_pos t z)) (Cong-refl (value (d ∷ cs) z)))
        (Cong-refl _)
    ⨾ Cong-of_eq (omega arith)

module _ {p : ℕ} (p_pos : 0 < p) (inv : ℕ → ℕ) where
  abbrev pub ratio : ℕ → ℕ → ℕ
  ratio t x = neg_mod p x * inv (sub_mod p t x)

  abbrev pub weight : ℕ → List ℕ → ℕ
  weight x [] = 1
  weight x (y ∷ ys) = ratio x y * weight x ys

  -- The sum of f(x) times the weight of x against the others, over all points.
  abbrev pub lagrange : (ℕ → ℕ) → List ℕ → ℕ
  lagrange f [] = 0
  lagrange f (x ∷ xs) = f x * weight x xs + lagrange (λ t. f t * ratio t x) xs

  pub lagrange_ext :
      (f g : ℕ → ℕ) (xs : List ℕ) → ((t : ℕ) → f t ≡ g t) → lagrange f xs ≡ lagrange g xs
  lagrange_ext f g xs h = ap (λ k. lagrange k xs) (fun_ext {f = f} {g = g} h)

  lagrange-+ :
      (f g : ℕ → ℕ) (xs : List ℕ) → lagrange (λ t. f t + g t) xs ≡ lagrange f xs + lagrange g xs
  lagrange-+ f g [] = omega arith
  lagrange-+ f g (x ∷ xs) = omega (
    arith,
    lagrange_ext (λ t. (f t + g t) * ratio t x) (λ t. f t * ratio t x + g t * ratio t x) xs
        (λ t. omega arith),
    lagrange-+ (λ t. f t * ratio t x) (λ t. g t * ratio t x) xs,
  )

  lagrange-* : (a : ℕ) (f : ℕ → ℕ) (xs : List ℕ) → lagrange (λ t. a * f t) xs ≡ a * lagrange f xs
  lagrange-* a f [] = omega arith
  lagrange-* a f (x ∷ xs) = omega (
    arith,
    lagrange_ext (λ t. a * f t * ratio t x) (λ t. a * (f t * ratio t x)) xs (λ t. omega arith),
    lagrange-* a (λ t. f t * ratio t x) xs,
  )

  -- The order of two points does not matter.
  lagrange_swap :
      (f : ℕ → ℕ) (x y : ℕ) (xs : List ℕ) → lagrange f (x ∷ y ∷ xs) ≡ lagrange f (y ∷ x ∷ xs)
  lagrange_swap f x y xs = omega (
    arith,
    lagrange_ext (λ t. f t * ratio t x * ratio t y) (λ t. f t * ratio t y * ratio t x) xs
        (λ t. omega arith),
  )

  pub lagrange-Cong :
      (f g : ℕ → ℕ) (xs : List ℕ)
      → All (λ t. Cong p (f t) (g t)) xs
      → Cong p (lagrange f xs) (lagrange g xs)
  lagrange-Cong f g [] h = Cong-refl 0
  lagrange-Cong f g (x ∷ xs) h =
      Cong-+ (Cong-* h.0 (Cong-refl _))
        (lagrange-Cong (λ t. f t * ratio t x) (λ t. g t * ratio t x) xs (scaled xs h.1))
    where
      scaled :
          (ys : List ℕ)
          → All (λ t. Cong p (f t) (g t)) ys
          → All (λ t. Cong p (f t * ratio t x) (g t * ratio t x)) ys
      scaled [] _ = tt
      scaled (y ∷ ys) k = (Cong-* k.0 (Cong-refl _), scaled ys k.1)

  module _ (inverts : (a : ℕ) → IsUnit p a → Cong p (a * inv a) 1) where
    -- A function that vanishes at a point does not need that point.
    lagrange_root :
        (z : ℕ) (g : ℕ → ℕ) (xs : List ℕ)
        → All (λ t. IsUnit p (sub_mod p t z)) xs
        → Cong p (lagrange (λ t. sub_mod p t z * g t) (z ∷ xs)) (neg_mod p z * lagrange g xs)
    lagrange_root z g xs units =
        Cong-+ (Cong-* (Cong-* at_root (Cong-refl (g z))) (Cong-refl (weight z xs)))
          (lagrange-Cong _ (λ t. neg_mod p z * g t) xs (cancelled xs units))
        ⨾ Cong-of_eq (omega (arith, lagrange-* (neg_mod p z) g xs))
      where
        at_root : Cong p (sub_mod p z z) 0
        at_root = Cong-of_eq (omega arith) ⨾ neg_mod_lem p_pos z

        cancel :
            (t : ℕ)
            → IsUnit p (sub_mod p t z)
            → Cong p (sub_mod p t z * g t * ratio t z) (neg_mod p z * g t)
        cancel t u =
            Cong-of_eq {b = sub_mod p t z * inv (sub_mod p t z) * (neg_mod p z * g t)} (omega arith)
            ⨾ Cong-* (inverts _ u) (Cong-refl _)
            ⨾ Cong-of_eq (omega arith)

        cancelled :
            (ys : List ℕ)
            → All (λ t. IsUnit p (sub_mod p t z)) ys
            → All (λ t. Cong p (sub_mod p t z * g t * ratio t z) (neg_mod p z * g t)) ys
        cancelled [] _ = tt
        cancelled (y ∷ ys) k = (cancel y k.0, cancelled ys k.1)

    -- The same for the second of two points.
    lagrange-root_second :
        (x z : ℕ) (g : ℕ → ℕ) (xs : List ℕ)
        → All (λ t. IsUnit p (sub_mod p t z)) (x ∷ xs)
        → Cong p
            (lagrange (λ t. sub_mod p t z * g t) (x ∷ z ∷ xs))
            (neg_mod p z * lagrange g (x ∷ xs))
    lagrange-root_second x z g xs units =
        Cong-of_eq (lagrange_swap (λ t. sub_mod p t z * g t) x z xs)
        ⨾ lagrange_root z g (x ∷ xs) units

    difference :
        (x y : ℕ) (xs : List ℕ)
        → Cong p
            (sub_mod p x y * lagrange (λ _. 1) xs + lagrange (λ t. sub_mod p t x * 1) xs)
            (lagrange (λ t. sub_mod p t y * 1) xs)
    difference x y xs =
        Cong-of_eq (
          omega (
            arith,
            lagrange-* (sub_mod p x y) (λ _. 1) xs,
            lagrange-+ (λ _. sub_mod p x y * 1) (λ t. sub_mod p t x * 1) xs,
          ))
        ⨾ lagrange-Cong (λ t. sub_mod p x y * 1 + sub_mod p t x * 1) (λ t. sub_mod p t y * 1) xs
            (All-of_All _ xs λ t.
              Cong-of_eq {b = sub_mod p t y * 1 + (neg_mod p x + x)} (omega arith)
              ⨾ Cong-+ (Cong-refl _) (neg_mod_lem p_pos x)
              ⨾ Cong-of_eq (omega arith))

    -- The weights add up to 1.
    lagrange-one : (x : ℕ) (xs : List ℕ) → Apart p (x ∷ xs) → Cong p (lagrange (λ _. 1) (x ∷ xs)) 1
    lagrange-one x [] apart = Cong-of_eq (omega arith)
    lagrange-one x (y ∷ ys) (((xy, yx), x_ys), (y_ys, apart)) = IsUnit-cancel xy (
        Cong-+_cancel (neg_mod p x) (
          Cong-+ (Cong-refl (sub_mod p x y * lagrange (λ _. 1) (x ∷ y ∷ ys)))
            (Cong-symm (through_x (lagrange-one y ys (y_ys, apart))))
          ⨾ difference x y (x ∷ y ∷ ys)
          ⨾ through_y (lagrange-one x ys (x_ys, apart))
          ⨾ Cong-symm (
              Cong-of_eq {b = neg_mod p y + (neg_mod p x + x)} (omega arith)
              ⨾ Cong-+ (Cong-refl _) (neg_mod_lem p_pos x)
              ⨾ Cong-of_eq (omega arith))))
      where
        last : {a : ℕ} (z : ℕ) → Cong p a 1 → Cong p (neg_mod p z * a) (neg_mod p z)
        last z h = Cong-* (Cong-refl _) h ⨾ Cong-of_eq (omega arith)

        through_x :
            Cong p (lagrange (λ _. 1) (y ∷ ys)) 1
            → Cong p (lagrange (λ t. sub_mod p t x * 1) (x ∷ y ∷ ys)) (neg_mod p x)
        through_x h = lagrange_root x (λ _. 1) (y ∷ ys) (yx, units_to p x ys x_ys) ⨾ last x h

        through_y :
            Cong p (lagrange (λ _. 1) (x ∷ ys)) 1
            → Cong p (lagrange (λ t. sub_mod p t y * 1) (x ∷ y ∷ ys)) (neg_mod p y)
        through_y h = lagrange-root_second x y (λ _. 1) ys (xy, units_to p y ys y_ys) ⨾ last y h

    -- Interpolation recovers the constant of any polynomial with no more coefficients than points.
    pub lagrange-value :
        (cs xs : List ℕ)
        → length cs ≤ length xs
        → Apart p xs
        → Cong p (lagrange (value cs) xs) (value cs 0)
    lagrange-value [] xs h apart = Cong-of_eq (omega (arith, lagrange-* 0 (λ _. 0) xs))
    lagrange-value (c ∷ cs) [] h apart = absurd (omega arith)
    lagrange-value (c ∷ cs) (x ∷ xs) h (x_xs, apart) =
        lagrange-Cong _ (λ t. value (c ∷ cs) x * 1 + sub_mod p t x * value q t) (x ∷ xs)
          (All-of_All _ (x ∷ xs) divided)
        ⨾ Cong-of_eq
            {b = value (c ∷ cs) x * lagrange (λ _. 1) (x ∷ xs)
              + lagrange (λ t. sub_mod p t x * value q t) (x ∷ xs)}
            (omega (
              arith,
              lagrange-+ (λ _. value (c ∷ cs) x * 1) (λ t. sub_mod p t x * value q t) (x ∷ xs),
              lagrange-* (value (c ∷ cs) x) (λ _. 1) (x ∷ xs),
            ))
        ⨾ Cong-+ (Cong-* (Cong-refl _) (lagrange-one x xs (x_xs, apart))) (
            lagrange_root x (value q) xs (units_to p x xs x_xs)
            ⨾ Cong-* (Cong-refl _)
                (lagrange-value q xs (omega (arith, length-quotient c cs x)) apart))
        ⨾ Cong-of_eq {b = value (c ∷ cs) x * 1 + sub_mod p 0 x * value q 0} (omega arith)
        ⨾ Cong-symm (divided 0)
      where
        q : List ℕ
        q = quotient (c ∷ cs) x

        divided :
            (t : ℕ) → Cong p (value (c ∷ cs) t) (value (c ∷ cs) x * 1 + sub_mod p t x * value q t)
        divided t = value-quotient p_pos (c ∷ cs) x t ⨾ Cong-of_eq (omega arith)
