-- ===== src/Sssa/Threshold/Words.antt =====
-- `expontUint16` in machine words: the power modulo 2 ^ 16.
use native.Mathlib.Nat.{pow-zero, pow-succ', mod-eq_of_lt}
use address_verification.Base.{
  ℕ, zero, suc, ◌-◌, ◌*◌, ◌%◌, ◌^◌, ◌<◌, ◌≡◌, refl, sym, ap, ◌∙◌, arith,
}
use address_verification.Base.Mod.{Cong-mod, Cong-refl, Cong-*}
use address_verification.Sssa.Threshold.{expont_loop, expont_uint16}

expont_loop-mod : (count x z : ℕ) → z < 2 ^ 16 → expont_loop count x z ≡ z * x ^ count % 2 ^ 16
unfolding expont_loop
expont_loop-mod zero x z h =
    let one : z * x ^ 0 ≡ z = ap (λ (t : ℕ). z * t) (pow-zero x) ∙ omega arith in
    sym (ap (λ (t : ℕ). t % 2 ^ 16) one ∙ mod-eq_of_lt h)
expont_loop-mod (suc count) x z h =
    let power : z * x * x ^ count ≡ z * x ^ suc count =
      omega (arith, ap (λ (t : ℕ). z * t) (pow-succ' x count)) in
    expont_loop-mod count x (z * x % 2 ^ 16) (omega arith)
    ∙ (Cong-* (Cong-mod {p = 2 ^ 16} (z * x)) (Cong-refl (x ^ count))).same
    ∙ ap (λ (t : ℕ). t % 2 ^ 16) power

expont_uint16-power_mod : (x y : ℕ) → x < 2 ^ 16 → expont_uint16 x (suc y) ≡ x ^ suc y % 2 ^ 16
unfolding expont_uint16
expont_uint16-power_mod x y h =
    let count : suc y - 1 ≡ y = omega arith in
    ap (λ (n : ℕ). expont_loop n x x) count
    ∙ expont_loop-mod y x x h
    ∙ ap (λ (t : ℕ). t % 2 ^ 16) (sym (pow-succ' x y))

-- Of a `uint16`, `expontUint16` is the power for an exponent that is not 0, wrapped around to 16
-- bits, and the number itself for the exponent 0: it is a `uint16` again.
pub expont_uint16-mod :
    (x y : ℕ)
    → x < 2 ^ 16
    → (expont_uint16 x (suc y) ≡ x ^ suc y % 2 ^ 16)
      × (expont_uint16 x 0 ≡ x)
      × (expont_uint16 x y < 2 ^ 16)
unfolding expont_uint16 expont_loop
expont_uint16-mod x y h = (expont_uint16-power_mod x y h, refl, small y)
  where
    small : (n : ℕ) → expont_uint16 x n < 2 ^ 16
    small zero = h
    small (suc n) = omega (arith, expont_uint16-power_mod x n h)
