-- ===== src/Base/Euclid.antt =====
-- The Euclidean remainder of an integer, up to congruence.
use address_verification.Base.Int.{ℤ, pos, negsuc, pos_part, neg_part, ◌+ℤ◌, emod, +ℤ_parts}
use address_verification.Base.Mod.{
  Cong, ◌⨾◌, Cong-mod, Cong-multiples, Cong-refl, Cong-of_eq, Cong-+, Cong-+_cancel,
}
use Prim.Native.Nat.{ℕ, suc, ◌+◌, ◌/◌, ◌<◌}
use mathlib.Core.Path.{◌≡◌}
use native.Mathlib.Omega.{arith}
use native.Mathlib.Nat.{div-add-mod, mod-lt}

module _ {p : ℕ} (p_pos : 0 < p) where
  pub emod-lt : (z : ℤ) → emod z p < p
  unfolding emod
  emod-lt (pos n) = mod-lt n p_pos
  emod-lt (negsuc n) = omega arith

  pub emod-Cong : (z : ℤ) → Cong p (emod z p + neg_part z) (pos_part z)
  unfolding emod
  emod-Cong (pos n) = Cong-of_eq (omega arith) ⨾ Cong-mod n
  emod-Cong (negsuc n) =
      Cong-multiples _ 0 0 (suc (n / p)) (omega (arith, div-add-mod n p, mod-lt n p_pos))

  -- Any integer that differs from a difference by as much on both sides has its remainder.
  pub emod-Cong_of : (z : ℤ) (a b : ℕ) → pos_part z + b ≡ neg_part z + a → Cong p (emod z p + b) a
  emod-Cong_of z a b h =
      Cong-+_cancel (neg_part z)
        (Cong-of_eq (omega arith) ⨾ Cong-+ (emod-Cong z) (Cong-refl b) ⨾ Cong-of_eq (omega arith))

  pub emod-+ : (a b : ℕ) (y : ℤ) → Cong p (emod (pos a +ℤ y) p + neg_part y) (a + pos_part y)
  emod-+ a b y = emod-Cong_of _ _ _ (omega (arith, +ℤ_parts (pos a) y))
