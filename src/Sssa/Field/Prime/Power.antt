-- ===== src/Sssa/Field/Prime/Power.antt =====
-- Powers, and powers modulo a number by repeated squaring.
use native.Mathlib.Nat.{two-pow-succ}
use address_verification.Base.{
  ℕ, zero, suc, ◌+◌, ◌*◌, ◌/◌, ◌%◌, ◌^◌, ◌<◌, ◌≡◌, refl, sym, ap, ◌∙◌, inl, inr, arith, Bool-cases,
  ◌==◌, ==_iff, if◌then◌else◌, false,
}
use address_verification.Base.Mod.{Cong, Cong-mod, Cong-of_eq, Cong-refl, Cong-*, ◌⨾◌}

unfoldable pub power : ℕ → ℕ → ℕ
power b zero = 1
power b (suc e) = b * power b e

pub power-+ : (b m n : ℕ) → power b (m + n) ≡ power b m * power b n
unfolding power
power-+ b zero n = let next : zero + n ≡ n = omega arith in ap (power b) next ∙ omega arith
power-+ b (suc m) n =
    let next : suc m + n ≡ suc (m + n) = omega arith in
    ap (power b) next ∙ omega (arith, ap (λ (t : ℕ). b * t) (power-+ b m n))

power-suc : (b e : ℕ) → b * power b e ≡ power b (suc e)
unfolding power
power-suc b e = refl

power_square : (b e : ℕ) → power (b * b) e ≡ power b (e + e)
unfolding power
power_square b zero = refl
power_square b (suc e) =
    let next : suc e + suc e ≡ suc (suc (e + e)) = omega arith in
    omega (arith, ap (λ (t : ℕ). b * b * t) (power_square b e), ap (power b) next)

module _ {p : ℕ} where
  pub Cong-power : {a b : ℕ} (e : ℕ) → Cong p a b → Cong p (power a e) (power b e)
  unfolding power
  Cong-power zero h = Cong-refl 1
  Cong-power (suc e) h = Cong-* h (Cong-power e h)

-- b ^ e modulo p.
unfoldable pub pow_mod : ℕ → ℕ → ℕ → ℕ → ℕ
pow_mod zero p b e = 1
pow_mod (suc fuel) p b e =
    let h = pow_mod fuel p (b * b % p) (e / 2) in
    if e == 0 then 1 else if e % 2 == 0 then h else b * h % p

module _ (fuel p b e : ℕ)
    (half : Cong p (pow_mod fuel p (b * b % p) (e / 2)) (power (b * b % p) (e / 2))) where
  pow_mod_half : Cong p (pow_mod fuel p (b * b % p) (e / 2)) (power b (e / 2 + e / 2))
  pow_mod_half = half ⨾ Cong-power (e / 2) (Cong-mod (b * b)) ⨾ Cong-of_eq (power_square b (e / 2))

  pow_mod_step : (e == 0) ≡ false → Cong p (pow_mod (suc fuel) p b e) (power b e)
  unfolding pow_mod
  pow_mod_step positive = elim (Bool-cases (e % 2 == 0)) [
    | inl even ↦
        let same : e / 2 + e / 2 ≡ e = omega (arith, (==_iff (e % 2) 0).0 even) in
        rw (positive, even) (pow_mod_half ⨾ Cong-of_eq (ap (power b) same))
    | inr odd ↦
        let same : suc (e / 2 + e / 2) ≡ e = ground arith in
        rw (positive, odd)
          (Cong-mod _
            ⨾ Cong-* (Cong-refl b) pow_mod_half
            ⨾ Cong-of_eq (power-suc b _ ∙ ap (power b) same))
  ]

-- The fuel suffices where the exponent has as many bits.
pub pow_mod-power : (fuel p b e : ℕ) → e < 2 ^ fuel → Cong p (pow_mod fuel p b e) (power b e)
unfolding pow_mod power
pow_mod-power zero p b zero h = Cong-refl 1
pow_mod-power zero p b (suc e) h = absurd (omega arith)
pow_mod-power (suc fuel) p b e h = elim (Bool-cases (e == 0)) [
  | inl z ↦ rw (z, pow_mod) (Cong-of_eq (ap (power b) (sym ((==_iff e 0).0 z))))
  | inr nz ↦
      pow_mod_step fuel p b e
        (pow_mod-power fuel p (b * b % p) (e / 2) (omega (arith, two-pow-succ fuel))) nz
]
