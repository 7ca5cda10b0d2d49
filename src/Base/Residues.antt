-- ===== src/Base/Residues.antt =====
-- Units and differences modulo `p`.
use Prim.Native.Nat.{ℕ, suc, ◌+◌, ◌-◌, ◌*◌, ◌/◌, ◌<◌}
use mathlib.Core.Path.{◌≡◌}
use native.Mathlib.Omega.{arith}
use native.Mathlib.Nat.{div-add-mod, mod-lt}
use address_verification.Base.Mod.{
  Cong, ◌⨾◌, Cong-multiple, Cong-multiples, Cong-refl, Cong-of_eq, Cong-symm, Cong-*,
}

-- The numbers that have an inverse modulo `p`.
pub record IsUnit (p a : ℕ) : Type 0 where
  pub inverse : ℕ
  pub inverts : Cong p (a * inverse) 1

-- -a modulo `p`, and a - b.
abbrev pub neg_mod : ℕ → ℕ → ℕ
neg_mod p a = p * suc (a / p) - a

abbrev pub sub_mod : ℕ → ℕ → ℕ → ℕ
sub_mod p a b = a + neg_mod p b

module _ {p : ℕ} where
  pub neg_mod-add : 0 < p → (a : ℕ) → neg_mod p a + a ≡ p * suc (a / p)
  neg_mod-add h a = omega (arith, div-add-mod a p, mod-lt a h)

  pub neg_mod_lem : 0 < p → (a : ℕ) → Cong p (neg_mod p a + a) 0
  neg_mod_lem h a = Cong-of_eq (neg_mod-add h a) ⨾ Cong-multiple (suc (a / p))

  pub sub_mod_lem : 0 < p → (a b : ℕ) → Cong p (sub_mod p a b + b) a
  sub_mod_lem h a b =
      Cong-multiples (sub_mod p a b + b) a 0 (suc (b / p)) (omega (arith, neg_mod-add h b))

  pub IsUnit-Cong : {a b : ℕ} → Cong p a b → IsUnit p a → IsUnit p b
  IsUnit-Cong h u = record {
    inverse = u.inverse;
    inverts = Cong-* (Cong-symm h) (Cong-refl u.inverse) ⨾ u.inverts;
  }

  pub IsUnit-one : IsUnit p 1
  IsUnit-one = record { inverse = 1; inverts = Cong-refl 1 }

  pub IsUnit-* : {a b : ℕ} → IsUnit p a → IsUnit p b → IsUnit p (a * b)
  IsUnit-* {a} {b} u v = record {
    inverse = u.inverse * v.inverse;
    inverts =
        Cong-of_eq (omega arith)
        ⨾ Cong-* u.inverts v.inverts
        ⨾ Cong-of_eq {a = 1 * 1} (omega arith);
  }

  -- A unit may be cancelled.
  pub IsUnit-cancel : {a b c : ℕ} → IsUnit p a → Cong p (a * b) (a * c) → Cong p b c
  IsUnit-cancel {a} {b} {c} u h = Cong-symm (strip b) ⨾ Cong-* (Cong-refl u.inverse) h ⨾ strip c
    where
      strip : (t : ℕ) → Cong p (u.inverse * (a * t)) t
      strip t = Cong-of_eq (omega arith) ⨾ Cong-* u.inverts (Cong-refl t) ⨾ Cong-of_eq (omega arith)
