-- ===== src/Sssa/Create/Distinct.antt =====
-- The coordinates that `CreateFromInt` draws are distinct, so that they differ by units modulo the
-- prime.
use mathlib.Core.Path.{subst}
use native.Mathlib.Nat.{mod-eq_of_lt}
use address_verification.Base.{
  ℕ, ◌+◌, ◌<◌, ◌≡◌, ◌≢◌, sym, ap, ◌∙◌, List, [], ◌∷◌, ◌++◌, append_assoc, arith, All, true, false,
  not,
}
use address_verification.Base.Mod.{◌⨾◌, Cong-symm, Cong-+, Cong-refl, Cong-of_eq, Cong-small}
use address_verification.Base.Residues.{IsUnit, sub_mod, sub_mod_lem}
use address_verification.Sssa.Lagrange.{Apart}
use address_verification.Sssa.Field.{default_prime, in_numbers}
use address_verification.Sssa.Field.Prime.{IsPrime, IsPrime-IsUnit}
use address_verification.Sssa.Field.Prime.Certificate.{IsPrime-default_prime}
use address_verification.Sssa.Draw.{is_fresh}
use address_verification.Sssa.Create.Shares.{AreFresh}

abbrev pub Distinct : List ℕ → Type 0
Distinct [] = Unit
Distinct (x ∷ xs) = All (λ y. x ≢ y) xs × Distinct xs

in_numbers_self : (before after : List ℕ) (x : ℕ) → in_numbers (before ++ x ∷ after) x ≡ true
unfolding in_numbers
in_numbers_self [] after x = ground arith
in_numbers_self (n ∷ before) after x = ground (arith, in_numbers_self before after x)

is_fresh-ne : (before after : List ℕ) (x y : ℕ) → is_fresh (before ++ x ∷ after) y ≡ true → x ≢ y
is_fresh-ne before after x y h e = differ (
    sym h ∙ ap not (ap (in_numbers (before ++ x ∷ after)) (sym e) ∙ in_numbers_self before after x))
  where
    differ : true ≡ false → ⊥
    differ e = ground arith

pub AreFresh-ne :
    (before after : List ℕ) (x : ℕ) (ys : List ℕ)
    → AreFresh (before ++ x ∷ after) ys
    → All (λ y. x ≢ y) ys
AreFresh-ne before after x [] _ = tt
AreFresh-ne before after x (y ∷ ys) (h, hs) = (
  is_fresh-ne before after x y h,
  AreFresh-ne before (after ++ y ∷ []) x ys
      (subst (λ l. AreFresh l ys) (append_assoc before (x ∷ after) (y ∷ [])) hs),
)

pub AreFresh-Distinct : (numbers xs : List ℕ) → AreFresh numbers xs → Distinct xs
AreFresh-Distinct numbers [] _ = tt
AreFresh-Distinct numbers (x ∷ xs) (h, hs) =
    (AreFresh-ne numbers [] x xs hs, AreFresh-Distinct (numbers ++ x ∷ []) xs hs)

-- The difference of two distinct residues modulo a prime is a unit.
sub_mod-IsUnit : {p : ℕ} → IsPrime p → (x y : ℕ) → x < p → y < p → x ≢ y → IsUnit p (sub_mod p x y)
sub_mod-IsUnit {p} prime x y hx hy h = IsPrime-IsUnit prime (sub_mod p x y) λ e. h (
    Cong-small hx hy (
      Cong-symm (sub_mod_lem (omega (arith, prime.one_lt)) x y)
      ⨾ Cong-+ (record { same = e ∙ sym (mod-eq_of_lt (omega (arith, prime.one_lt))) })
          (Cong-refl y)
      ⨾ Cong-of_eq {a = 0 + y} (omega arith)))

units_to :
    (x : ℕ) (ys : List ℕ)
    → x < default_prime
    → All (λ y. y < default_prime) ys
    → All (λ y. x ≢ y) ys
    → All
        (λ y.
          IsUnit default_prime (sub_mod default_prime x y)
          × IsUnit default_prime (sub_mod default_prime y x))
        ys
units_to x [] hx _ _ = tt
units_to x (y ∷ ys) hx (hy, below) (h, hs) = (
  (
    sub_mod-IsUnit IsPrime-default_prime x y hx hy h,
    sub_mod-IsUnit IsPrime-default_prime y x hy hx (λ e. h (sym e)),
  ),
  units_to x ys hx below hs,
)

pub Distinct-Apart :
    (xs : List ℕ) → All (λ x. x < default_prime) xs → Distinct xs → Apart default_prime xs
Distinct-Apart [] _ _ = tt
Distinct-Apart (x ∷ xs) (hx, below) (h, hs) = (units_to x xs hx below h, Distinct-Apart xs below hs)
