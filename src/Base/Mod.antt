-- ===== src/Base/Mod.antt =====
-- Congruence of native numbers modulo `p`: equal remainders.
use Prim.Native.Nat.{ℕ, ◌+◌, ◌*◌, ◌/◌, ◌%◌, ◌<◌}
use mathlib.Core.Path.{◌≡◌, refl, sym, ap, ◌∙◌}
use native.Mathlib.Omega.{arith}
use native.Mathlib.Nat.{mod-mod, div-add-mod, add-mul-mod_self_left, mod-eq_of_lt}

pub record Cong (p a b : ℕ) : Type 0 where
  pub same : a % p ≡ b % p

module _ {p : ℕ} where
  pub Cong-multiples : (a b k l : ℕ) → a + p * k ≡ b + p * l → Cong p a b
  Cong-multiples a b k l h = record {
    same =
        sym (add-mul-mod_self_left a p k) ∙ ap (λ (t : ℕ). t % p) h ∙ add-mul-mod_self_left b p l;
  }

  -- By which multiples of `p` two congruent numbers differ.
  pub multiples-Cong : {a b : ℕ} → Cong p a b → a + p * (b / p) ≡ b + p * (a / p)
  multiples-Cong {a} {b} h = omega (arith, div-add-mod a p, div-add-mod b p, h.same)

  pub Cong-refl : (a : ℕ) → Cong p a a
  Cong-refl a = record { same = refl }

  pub Cong-of_eq : {a b : ℕ} → a ≡ b → Cong p a b
  Cong-of_eq h = record { same = ap (λ (t : ℕ). t % p) h }

  pub Cong-symm : {a b : ℕ} → Cong p a b → Cong p b a
  Cong-symm h = record { same = sym h.same }

  infixr 30 ◌⨾◌
  pub ◌⨾◌ : {a b c : ℕ} → Cong p a b → Cong p b c → Cong p a c
  h ⨾ k = record { same = h.same ∙ k.same }

  pub Cong-mod : (a : ℕ) → Cong p (a % p) a
  Cong-mod a = record { same = mod-mod a p }

  pub Cong-+ : {a b c d : ℕ} → Cong p a b → Cong p c d → Cong p (a + c) (b + d)
  Cong-+ {a} {b} {c} {d} h k =
      Cong-multiples (a + c) (b + d) (b / p + d / p) (a / p + c / p)
        (omega (arith, multiples-Cong h, multiples-Cong k))

  pub Cong-* : {a b c d : ℕ} → Cong p a b → Cong p c d → Cong p (a * c) (b * d)
  Cong-* {a} {b} {c} {d} h k =
      Cong-multiples (a * c) (b * d) (b / p * c + b * (d / p)) (a / p * c + b * (c / p)) (
        omega (
          arith,
          ap (λ (t : ℕ). t * c) (multiples-Cong h),
          ap (λ (t : ℕ). b * t) (multiples-Cong k),
        ))

  pub Cong-+_cancel : {a b : ℕ} (c : ℕ) → Cong p (a + c) (b + c) → Cong p a b
  Cong-+_cancel {a} {b} c h =
      Cong-multiples a b ((b + c) / p) ((a + c) / p) (omega (arith, multiples-Cong h))

  -- A congruence that holds once multiples of `p` are dropped.
  pub Cong-multiple : (k : ℕ) → Cong p (p * k) 0
  Cong-multiple k = Cong-multiples (p * k) 0 0 k (omega arith)

  pub Cong-small : {a b : ℕ} → a < p → b < p → Cong p a b → a ≡ b
  Cong-small ha hb h = sym (mod-eq_of_lt ha) ∙ h.same ∙ mod-eq_of_lt hb
