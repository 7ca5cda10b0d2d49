-- ===== src/Sssa/Hex.antt =====
-- The hexadecimal texts that sssa/utils.go goes through: Go's `hex.EncodeToString`,
-- `hex.DecodeString`, `big.Int.SetString(_, 16)` and `fmt.Sprintf("%x", _)`.
pub mod Digits
use address_verification.Base.{
  ℕ, zero, suc, ◌+◌, ◌-◌, ◌*◌, ◌/◌, ◌%◌, ◌<◌, ◌≤◌, ◌^◌, ◌≡◌, refl, ap, ◌∙◌, sym, List, [], ◌∷◌,
  ◌++◌, Option, none, some, Bool, true, false, ◌&&◌, arith, ltb, leb, if◌then◌else◌, Bytes, length,
  replicate, All, length-append, length-replicate, Bool-cases, inl, inr, ltb→lt,
}
use address_verification.Base.Int.{ℤ, pos, negsuc}

unfoldable pub hex_char : ℕ → ℕ
hex_char v = if ltb v 10 then b'0' + v else b'a' + (v - 10)

unfoldable pub unhex : ℕ → Option ℕ
unhex c =
    if leb b'0' c && leb c b'9'
    then some (c - b'0')
    else if leb b'a' c && leb c b'f'
    then some (c - b'a' + 10)
    else if leb b'A' c && leb c b'F'
    then some (c - b'A' + 10)
    else none

unfoldable pub hex_encode : Bytes → Bytes
hex_encode [] = []
hex_encode (b ∷ bs) = hex_char (b / 16) ∷ hex_char (b % 16) ∷ hex_encode bs

-- A pair of digits as a byte.
unfoldable pub unhex_pair : ℕ → ℕ → Option ℕ
unhex_pair c d = elim (unhex c) [
  | none ↦ none
  | some x ↦ elim (unhex d) [ none ↦ none | some y ↦ some (x * 16 + y) ]
]

-- What was decoded before the first fault, and whether there was none.
unfoldable pub hex_decode : Bytes → Bytes × Bool
hex_decode [] = ([], true)
hex_decode (c ∷ []) = ([], false)
hex_decode (c ∷ d ∷ s) =
    let rest = hex_decode s in
    elim (unhex_pair c d) [ none ↦ ([], false) | some b ↦ (b ∷ rest.0, rest.1) ]

-- The digits read from the left behind `n`.
unfoldable pub read_hex : Bytes → ℕ → Option ℕ
read_hex [] n = some n
read_hex (c ∷ s) n = elim (unhex c) [ none ↦ none | some d ↦ read_hex s (n * 16 + d) ]

-- `SetString(s, 16)` on a text with no sign; the empty text is refused.
unfoldable pub set_string : Bytes → Option ℕ
set_string [] = none
set_string (c ∷ s) = read_hex (c ∷ s) 0

-- The digits of a number without leading zeros; the number itself is fuel enough.
unfoldable pub hex_digits : ℕ → ℕ → Bytes
hex_digits zero n = []
hex_digits (suc fuel) n =
    let more = hex_digits fuel (n / 16) ++ hex_char (n % 16) ∷ [] in
    if ltb n 16 then hex_char n ∷ [] else more

-- `fmt.Sprintf("%x", number)`.
unfoldable pub format_hex : ℤ → Bytes
format_hex (pos n) = hex_digits (suc n) n
format_hex (negsuc n) = b'-' ∷ hex_digits (suc (suc n)) (suc n)

-- Zeros in front up to a width; a longer text is left alone.
abbrev pub pad_zeros : ℕ → Bytes → Bytes
pad_zeros width s = replicate (width - length s) b'0' ++ s
