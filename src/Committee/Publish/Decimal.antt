-- ===== src/Committee/Publish/Decimal.antt =====
-- `Atoi` reads what `Itoa` and `FormatData44bytes` print.
use address_verification.Base.{
  ℕ, zero, suc, ◌+◌, ◌-◌, ◌*◌, ◌/◌, ◌%◌, ◌^◌, ◌<◌, ◌≤◌, ◌≡◌, refl, ap, ◌∙◌, [], ◌∷◌, ◌++◌, some,
  false, ltb, ltb→lt, ltb-false, Bytes, length, length-append, length-replicate, replicate, arith,
  Bool-cases, inl, inr,
}
use native.Mathlib.Nat.{pow-suc}
use address_verification.Base.Int.{pos, ◌-ℤ◌}
use address_verification.Sssa.Base64.{format_data_44_bytes}
use address_verification.Committee.Message.{digits_value, unsigned, signed, in_range, atoi}
use address_verification.Committee.Publish.{itoa_digits, itoa}

digits_value-append :
    (v : ℕ) (l : Bytes) (w d : ℕ)
    → digits_value v l ≡ some w
    → d < 10
    → digits_value v (l ++ (48 + d) ∷ []) ≡ some (w * 10 + d)
unfolding digits_value
digits_value-append v [] w d e h = ground (arith, e)
digits_value-append v (c ∷ l) w d e h =
    ground (arith, digits_value-append (v * 10 + (c - 48)) l w d, e)

some_fuel : (fuel n : ℕ) → n < 10 ^ suc fuel → 10 ≤ n → 0 < fuel
some_fuel zero n h l = absurd (omega arith)
some_fuel (suc fuel) n h l = omega arith

digits_value-itoa_digits :
    (fuel n : ℕ) → n < 10 ^ fuel → 0 < fuel → digits_value 0 (itoa_digits fuel n) ≡ some n
unfolding itoa_digits digits_value
digits_value-itoa_digits zero n h f = absurd (omega arith)
digits_value-itoa_digits (suc fuel) n h f = elim (Bool-cases (ltb n 10)) [
  | inl e ↦
      let small = ltb→lt n 10 e in
      rw e (digits_value-append 0 [] 0 n refl small ∙ ap some (omega arith))
  | inr e ↦
      let large = ltb-false n 10 e in
      rw e (
        digits_value-append 0 (itoa_digits fuel (n / 10)) (n / 10) (n % 10)
          (digits_value-itoa_digits fuel (n / 10) (omega (arith, pow-suc 10 fuel))
            (some_fuel fuel n h large))
          (omega arith)
        ∙ ap some (omega arith))
]

length-itoa_digits : (fuel n : ℕ) → length (itoa_digits fuel n) ≤ fuel
unfolding itoa_digits
length-itoa_digits zero n = omega arith
length-itoa_digits (suc fuel) n = ground (
  arith,
  length-itoa_digits fuel (n / 10),
  length-append (itoa_digits fuel (n / 10)) ((48 + n % 10) ∷ []),
)

digits_value-zeros :
    (count : ℕ) (l : Bytes) → digits_value 0 (replicate count 48 ++ l) ≡ digits_value 0 l
unfolding digits_value
digits_value-zeros zero l = refl
digits_value-zeros (suc count) l = digits_value-zeros count l

in_range-pos : (n : ℕ) → n < 2 ^ 63 → in_range (pos n) ≡ some (pos n)
unfolding in_range ◌-ℤ◌
in_range-pos n h = ground arith

atoi-zero :
    (l : Bytes) (n : ℕ) → digits_value 0 l ≡ some n → n < 2 ^ 63 → atoi (48 ∷ l) ≡ some (pos n)
unfolding atoi unsigned signed digits_value
atoi-zero l n e h = ap (signed false) e ∙ in_range-pos n h

-- `Atoi` of a number that `Itoa` prints and `FormatData44bytes` fills up is the number, in an
-- `int64`.
pub atoi-itoa : (n : ℕ) → n < 2 ^ 63 → atoi (format_data_44_bytes (itoa n)) ≡ some (pos n)
unfolding atoi unsigned signed in_range format_data_44_bytes itoa
atoi-itoa n h =
    let digits = itoa_digits 20 n in
    let size : length digits ≤ 20 = length-itoa_digits 20 n in
    let k = 43 - length digits in
    let value : digits_value 0 (replicate k 48 ++ digits) ≡ some n =
      digits_value-zeros k digits ∙ digits_value-itoa_digits 20 n (omega arith) (omega arith) in
    let room : 44 - length digits ≡ suc k = omega arith in
    let filled : format_data_44_bytes (itoa n) ≡ replicate (44 - length digits) 48 ++ digits =
      ground (arith, size) in
    ap atoi (filled ∙ ap (λ c. replicate c 48 ++ digits) room)
    ∙ atoi-zero (replicate k 48 ++ digits) n value h

pub length-format_itoa : (n : ℕ) → length (format_data_44_bytes (itoa n)) ≡ 44
unfolding format_data_44_bytes itoa
length-format_itoa n =
    let digits = itoa_digits 20 n in
    let size : length digits ≤ 20 = length-itoa_digits 20 n in
    let filled : format_data_44_bytes (itoa n) ≡ replicate (44 - length digits) 48 ++ digits =
      ground (arith, size) in
    ap length filled
    ∙ length-append (replicate (44 - length digits) 48) digits
    ∙ omega (arith, length-replicate {A = ℕ} (44 - length digits) 48)
