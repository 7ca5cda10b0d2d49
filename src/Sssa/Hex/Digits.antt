-- ===== src/Sssa/Hex/Digits.antt =====
-- What the hexadecimal texts stand for: digits read and printed, and bytes in base 256.
use address_verification.Base.{
  ℕ, zero, suc, ◌+◌, ◌-◌, ◌*◌, ◌/◌, ◌%◌, ◌<◌, ◌≤◌, ◌^◌, ◌≡◌, refl, ap, ◌∙◌, List, [], ◌∷◌, ◌++◌,
  map, some, true, arith, ltb, if◌then◌else◌, Bytes, length, replicate, All, All-append,
  length-append, length-replicate, Bool-cases, inl, inr, ltb→lt, lt→ltb, ltb-false,
}
use address_verification.Base.Int.{pos}
use address_verification.Sssa.Hex.{
  hex_char, unhex, hex_encode, unhex_pair, hex_decode, read_hex, hex_digits, format_hex, pad_zeros,
}
use mathlib.Core.List.{map-append}
use native.Mathlib.Nat.{pow-suc}

abbrev pub IsDigit : ℕ → Type 0
IsDigit d = d < 16

abbrev pub IsByte : ℕ → Type 0
IsByte b = b < 256

abbrev pub big_endian : Bytes → ℕ → ℕ
big_endian [] n = n
big_endian (b ∷ bs) n = big_endian bs (n * 256 + b)

-- The number that digits spell behind `n`.
abbrev pub spelled : List ℕ → ℕ → ℕ
spelled [] n = n
spelled (d ∷ ds) n = spelled ds (n * 16 + d)

spelled-append : (xs ys : List ℕ) (n : ℕ) → spelled (xs ++ ys) n ≡ spelled ys (spelled xs n)
spelled-append [] ys n = refl
spelled-append (x ∷ xs) ys n = spelled-append xs ys (n * 16 + x)

spelled-replicate : (k : ℕ) → spelled (replicate k 0) 0 ≡ 0
spelled-replicate zero = refl
spelled-replicate (suc k) = spelled-replicate k

unhex-hex_char : (v : ℕ) → v < 16 → unhex (hex_char v) ≡ some v
unfolding unhex hex_char
unhex-hex_char v h = ground arith

pub read_hex_step :
    (x n : ℕ) (s : Bytes) → x < 16 → read_hex (hex_char x ∷ s) n ≡ read_hex s (n * 16 + x)
unfolding read_hex
read_hex_step x n s h = rw (unhex-hex_char x h, read_hex)

-- Bytes printed in hexadecimal are read as the number that they are in base 256.
pub read_hex-hex_encode :
    (bs : Bytes) (n : ℕ) → All IsByte bs → read_hex (hex_encode bs) n ≡ some (big_endian bs n)
unfolding hex_encode
read_hex-hex_encode [] n h = unfold read_hex in refl
read_hex-hex_encode (b ∷ bs) n (hb, hbs) =
    read_hex_step (b / 16) n _ (omega arith)
    ∙ read_hex_step (b % 16) (n * 16 + b / 16) _ (omega arith)
    ∙ read_hex-hex_encode bs _ hbs
    ∙ ap (λ (t : ℕ). some (big_endian bs t)) {y = n * 256 + b} (omega arith)

-- The digits that `hex_digits` prints, as numbers.
digit_list : ℕ → ℕ → List ℕ
digit_list zero n = []
digit_list (suc fuel) n =
    let more = digit_list fuel (n / 16) ++ n % 16 ∷ [] in if ltb n 16 then n ∷ [] else more

hex_digits-digit_list : (f n : ℕ) → hex_digits f n ≡ map hex_char (digit_list f n)
unfolding hex_digits digit_list
hex_digits-digit_list zero n = refl
hex_digits-digit_list (suc f) n = elim (Bool-cases (ltb n 16)) [
  | inl small ↦ rw small
  | inr large ↦ rw (large, hex_digits-digit_list f (n / 16), map-append)
]

record IsSpelling (w n : ℕ) (ds : List ℕ) : Type 0 where
  digits : All IsDigit ds
  value : spelled ds 0 ≡ n
  short : length ds ≤ w

-- One digit more at the end.
snoc-IsSpelling :
    (w n : ℕ) (ds : List ℕ) → IsSpelling w (n / 16) ds → IsSpelling (suc w) n (ds ++ n % 16 ∷ [])
snoc-IsSpelling w n ds h = record {
  digits = All-append IsDigit ds (n % 16 ∷ []) h.digits (omega arith, tt);
  value = spelled-append ds (n % 16 ∷ []) 0 ∙ omega (arith, h.value);
  short = omega (arith, length-append ds (n % 16 ∷ []), h.short);
}

digit_list-IsSpelling : (f n w : ℕ) → n < f → n < 16 ^ suc w → IsSpelling (suc w) n (digit_list f n)
unfolding digit_list
digit_list-IsSpelling zero n w h k = absurd (omega arith)
digit_list-IsSpelling (suc f) n zero h k =
    rw (lt→ltb n 16 k) (record { digits = (k, tt); value = omega arith; short = omega arith })
digit_list-IsSpelling (suc f) n (suc w) h k = elim (Bool-cases (ltb n 16)) [
  | inl small ↦
      rw small
        (record { digits = (ltb→lt n 16 small, tt); value = omega arith; short = omega arith })
  | inr large ↦ rw large (
      snoc-IsSpelling (suc w) n _ (
        digit_list-IsSpelling f (n / 16) w (omega (arith, ltb-false n 16 large))
          (omega (arith, pow-suc 16 (suc w)))))
]

length-map_hex : (ds : List ℕ) → length (map hex_char ds) ≡ length ds
length-map_hex [] = refl
length-map_hex (d ∷ ds) = ap suc (length-map_hex ds)

All-zeros : (k : ℕ) → All IsDigit (replicate k 0)
All-zeros zero = tt
All-zeros (suc k) = (omega arith, All-zeros k)

map-pad :
    (k : ℕ) (ds : List ℕ) → replicate k b'0' ++ map hex_char ds ≡ map hex_char (replicate k 0 ++ ds)
map-pad zero ds = refl
map-pad (suc k) ds =
    ap (λ l. b'0' ∷ l) (map-pad k ds)
    ∙ ap (λ (c : ℕ). c ∷ map hex_char (replicate k 0 ++ ds)) (unfold hex_char in refl)

-- Padded to the width, the text of a number spells it in exactly that many digits.
pub padded :
    (n w : ℕ)
    → n < 16 ^ suc w
    → (ds : List ℕ) × (pad_zeros (suc w) (format_hex (pos n)) ≡ map hex_char ds)
      × All IsDigit ds
      × (spelled ds 0 ≡ n)
      × (length ds ≡ suc w)
unfolding format_hex
padded n w h = (
  zeros ++ ds,
  rw (hex_digits-digit_list (suc n) n, length-map_hex ds) (map-pad (suc w - length ds) ds),
  All-append IsDigit zeros ds (All-zeros _) sp.digits,
  spelled-append zeros ds 0
      ∙ ap (λ (t : ℕ). spelled ds t) (spelled-replicate (suc w - length ds))
      ∙ sp.value,
  omega (arith, length-append zeros ds, length-replicate {A = ℕ} (suc w - length ds) 0, sp.short),
)
  where
    ds : List ℕ
    ds = digit_list (suc n) n

    zeros : List ℕ
    zeros = replicate (suc w - length ds) 0

    sp : IsSpelling (suc w) n ds
    sp = digit_list-IsSpelling (suc n) n w (omega arith) h

pub length-format_hex : (n w : ℕ) → n < 16 ^ suc w → length (format_hex (pos n)) ≤ suc w
unfolding format_hex
length-format_hex n w h =
    rw (hex_digits-digit_list (suc n) n, length-map_hex)
      (digit_list-IsSpelling (suc n) n w (omega arith) h).short

pub unhex_pair-hex_char :
    (d e : ℕ) → d < 16 → e < 16 → unhex_pair (hex_char d) (hex_char e) ≡ some (d * 16 + e)
unfolding unhex_pair
unhex_pair-hex_char d e hd he = rw (unhex-hex_char d hd, unhex_pair, unhex-hex_char e he)

-- Digits in pairs are decoded to the bytes of the number that they spell.
pub decoded :
    (k : ℕ) (ds : List ℕ)
    → length ds ≡ k + k
    → All IsDigit ds
    → (bs : Bytes) × (hex_decode (map hex_char ds) ≡ (bs, true))
      × All IsByte bs
      × (length bs ≡ k)
      × ((m : ℕ) → big_endian bs m ≡ spelled ds m)
unfolding hex_decode
decoded k [] h _ = ([], refl, tt, omega arith, λ m. refl)
decoded k (d ∷ []) h _ = absurd (omega arith)
decoded zero (d ∷ e ∷ ds) h _ = absurd (omega arith)
decoded (suc k) (d ∷ e ∷ ds) h (hd, (he, hds)) =
    let (bs, e₁, bytes, count, same) = decoded k ds (omega arith) hds in
    (
      (d * 16 + e) ∷ bs,
      rw (unhex_pair-hex_char d e hd he, hex_decode, e₁),
      (omega arith, bytes),
      omega (arith, count),
      λ m. same _ ∙ ap (λ (t : ℕ). spelled ds t) {y = (m * 16 + d) * 16 + e} (omega arith),
    )
