-- ===== src/Sssa/Text/Digits.antt =====
-- The hexadecimal digits of bytes and of numbers, as `splitByteToInt` and `mergeIntToByte` use them.
use address_verification.Base.{
  ℕ, suc, ◌+◌, ◌-◌, ◌*◌, ◌/◌, ◌%◌, ◌<◌, ◌^◌, ◌≡◌, refl, sym, ap, ap₂, ◌∙◌, List, [], ◌∷◌, ◌++◌, map,
  some, true, arith, Bytes, length, All,
}
use native.Mathlib.Nat.{pow-suc}
use address_verification.Base.Int.{pos}
use address_verification.Sssa.Hex.{
  hex_char, hex_encode, hex_decode, read_hex, format_hex, pad_zeros,
}
use address_verification.Sssa.Hex.Digits.{
  IsDigit, IsByte, spelled, padded, read_hex_step, unhex_pair-hex_char,
}

-- The digits of bytes.
abbrev pub digits_of : Bytes → List ℕ
digits_of [] = []
digits_of (b ∷ bs) = b / 16 ∷ b % 16 ∷ digits_of bs

pub hex_encode-digits_of : (bs : Bytes) → hex_encode bs ≡ map hex_char (digits_of bs)
unfolding hex_encode
hex_encode-digits_of [] = refl
hex_encode-digits_of (b ∷ bs) =
    ap (λ (l : Bytes). hex_char (b / 16) ∷ hex_char (b % 16) ∷ l) (hex_encode-digits_of bs)

pub digits_of-append : (a b : Bytes) → digits_of (a ++ b) ≡ digits_of a ++ digits_of b
digits_of-append [] b = refl
digits_of-append (x ∷ a) b = ap (λ (l : List ℕ). x / 16 ∷ x % 16 ∷ l) (digits_of-append a b)

pub length-digits_of : (bs : Bytes) → length (digits_of bs) ≡ 2 * length bs
length-digits_of [] = refl
length-digits_of (b ∷ bs) = omega (arith, length-digits_of bs)

pub digits_of-IsDigit : (bs : Bytes) → All IsByte bs → All IsDigit (digits_of bs)
digits_of-IsDigit [] h = tt
digits_of-IsDigit (b ∷ bs) (h, hs) = (omega arith, (omega arith, digits_of-IsDigit bs hs))

pub hex_decode-digits_of :
    (bs : Bytes) → All IsByte bs → hex_decode (map hex_char (digits_of bs)) ≡ (bs, true)
unfolding hex_decode
hex_decode-digits_of [] h = refl
hex_decode-digits_of (b ∷ bs) (h, hs) =
    let byte : b / 16 * 16 + b % 16 ≡ b = omega arith in
    rw
      (
        unhex_pair-hex_char (b / 16) (b % 16) (omega arith) (omega arith),
        hex_decode,
        hex_decode-digits_of bs hs,
        byte,
      )
      refl

pub read_hex-spelled :
    (ds : List ℕ) (n : ℕ) → All IsDigit ds → read_hex (map hex_char ds) n ≡ some (spelled ds n)
read_hex-spelled [] n h = unfold read_hex in refl
read_hex-spelled (d ∷ ds) n (h, hs) =
    read_hex_step d n (map hex_char ds) h ∙ read_hex-spelled ds (n * 16 + d) hs

-- Digits are determined by the number that they spell and by how many they are.
spelled-injective :
    (ds es : List ℕ) (n m : ℕ)
    → length ds ≡ length es
    → All IsDigit ds
    → All IsDigit es
    → spelled ds n ≡ spelled es m
    → (n ≡ m) × (ds ≡ es)
spelled-injective [] [] n m h hd he e = (e, refl)
spelled-injective [] (d ∷ es) n m h hd he e = absurd (omega arith)
spelled-injective (d ∷ ds) [] n m h hd he e = absurd (omega arith)
spelled-injective (d ∷ ds) (k ∷ es) n m h (hd, hds) (he, hes) e =
    let (first, rest) =
      spelled-injective ds es (n * 16 + d) (m * 16 + k) (omega (arith, h)) hds hes e in
    let digit : d ≡ k = omega (arith, first, hd, he) in
    (omega (arith, first, hd, he), ap₂ (λ (x : ℕ) (l : List ℕ). x ∷ l) digit rest)

spelled-lt : (ds : List ℕ) (n : ℕ) → All IsDigit ds → spelled ds n < suc n * 16 ^ length ds
spelled-lt [] n h = omega arith
spelled-lt (d ∷ ds) n (h, hs) =
    let more : suc n * 16 ≡ suc (n * 16 + d) + (15 - d) = omega (arith, h) in
    let power : 16 ^ suc (length ds) ≡ 16 ^ length ds * 16 = pow-suc 16 (length ds) in
    omega (
      arith,
      spelled-lt ds (n * 16 + d) hs,
      ap (λ (t : ℕ). t * 16 ^ length ds) more,
      ap (λ (t : ℕ). suc n * t) power,
    )

-- Padded to 64 digits, the number that 64 digits spell is printed as these.
pub pad_zeros-spelled :
    (ds : List ℕ)
    → length ds ≡ 64
    → All IsDigit ds
    → (spelled ds 0 < 16 ^ 64) × (pad_zeros 64 (format_hex (pos (spelled ds 0))) ≡ map hex_char ds)
pad_zeros-spelled ds h hs =
    let size : 16 ^ length ds ≡ 16 ^ 64 = ap (λ (t : ℕ). 16 ^ t) h in
    let below : spelled ds 0 < 16 ^ 64 = omega (arith, spelled-lt ds 0 hs, size) in
    let (es, printed, digits, same, count) = padded (spelled ds 0) 63 below in
    (
      below,
      printed ∙ ap (map hex_char) (spelled-injective es ds 0 0 (count ∙ sym h) digits hs same).1,
    )
