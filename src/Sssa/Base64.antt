-- ===== src/Sssa/Base64.antt =====
-- `toBase64` and `fromBase64` of sssa/utils.go, over Go's `base64.URLEncoding`.
pub mod RoundTrip
use address_verification.Base.{
  ℕ, ◌+◌, ◌-◌, ◌*◌, ◌/◌, ◌%◌, List, [], ◌∷◌, Option, none, some, Bool, true, false, ◌&&◌, ◌||◌, ltb,
  leb, ◌==◌, if◌then◌else◌, Bytes, ◌++◌, length,
}
use address_verification.Base.Int.{ℤ, pos, negsuc}
use address_verification.Sssa.Hex.{hex_decode, hex_encode, set_string, format_hex, pad_zeros}

unfoldable pub encode_digit : ℕ → ℕ
encode_digit v =
    if ltb v 26
    then b'A' + v
    else if ltb v 52
    then b'a' + (v - 26)
    else if ltb v 62
    then b'0' + (v - 52)
    else if v == 62
    then b'-'
    else b'_'

unfoldable pub decode_digit : ℕ → Option ℕ
decode_digit c =
    if leb b'A' c && leb c b'Z'
    then some (c - b'A')
    else if leb b'a' c && leb c b'z'
    then some (c - b'a' + 26)
    else if leb b'0' c && leb c b'9'
    then some (c - b'0' + 52)
    else if c == b'-'
    then some 62
    else if c == b'_'
    then some 63
    else none

-- `URLEncoding.EncodeToString`: three bytes as four digits, the last group padded with `=`.
unfoldable pub encode : Bytes → Bytes
encode [] = []
encode (a ∷ []) = encode_digit (a / 4) ∷ encode_digit (a % 4 * 16) ∷ b'=' ∷ b'=' ∷ []
encode (a ∷ b ∷ []) =
    encode_digit (a / 4)
    ∷ encode_digit (a % 4 * 16 + b / 16)
    ∷ encode_digit (b % 16 * 4)
    ∷ b'='
    ∷ []
encode (a ∷ b ∷ c ∷ s) =
    encode_digit (a / 4)
    ∷ encode_digit (a % 4 * 16 + b / 16)
    ∷ encode_digit (b % 16 * 4 + c / 64)
    ∷ encode_digit (c % 64)
    ∷ encode s

-- The decoder skips line ends.
unfoldable pub without_newlines : Bytes → Bytes
without_newlines [] = []
without_newlines (c ∷ s) =
    let rest = without_newlines s in if c == b'\n' || c == b'\r' then rest else c ∷ rest

-- One padded group ends the text; the spare bits of its last digit are not looked at.
unfoldable pub last_one : ℕ → ℕ → Bytes → Option Bytes
last_one a b [] = elim (decode_digit a) [
  | none ↦ none
  | some x ↦ elim (decode_digit b) [ none ↦ none | some y ↦ some ((x * 4 + y / 16) ∷ []) ]
]
last_one a b (_ ∷ _) = none

unfoldable pub last_two : ℕ → ℕ → ℕ → Bytes → Option Bytes
last_two a b c [] = elim (decode_digit a) [
  | none ↦ none
  | some x ↦ elim (decode_digit b) [
    | none ↦ none
    | some y ↦ elim (decode_digit c) [
      | none ↦ none
      | some z ↦ some ((x * 4 + y / 16) ∷ (y % 16 * 16 + z / 4) ∷ [])
    ]
  ]
]
last_two a b c (_ ∷ _) = none

-- Four digits as three bytes in front of what follows them.
unfoldable pub group : ℕ → ℕ → ℕ → ℕ → Option Bytes → Option Bytes
group a b c d rest = elim (decode_digit a) [
  | none ↦ none
  | some x ↦ elim (decode_digit b) [
    | none ↦ none
    | some y ↦ elim (decode_digit c) [
      | none ↦ none
      | some z ↦ elim (decode_digit d) [
        | none ↦ none
        | some w ↦ elim rest [
          | none ↦ none
          | some bs ↦ some ((x * 4 + y / 16) ∷ (y % 16 * 16 + z / 4) ∷ (z % 4 * 64 + w) ∷ bs)
        ]
      ]
    ]
  ]
]

unfoldable pub decode_groups : Bytes → Option Bytes
decode_groups [] = some []
decode_groups (a ∷ []) = none
decode_groups (a ∷ b ∷ []) = none
decode_groups (a ∷ b ∷ c ∷ []) = none
decode_groups (a ∷ b ∷ c ∷ d ∷ s) =
    let rest = decode_groups s in
    if c == b'='
    then (if d == b'=' then last_one a b s else none)
    else if d == b'='
    then last_two a b c s
    else group a b c d rest

-- `URLEncoding.DecodeString`.
unfoldable pub decode : Bytes → Option Bytes
decode s = decode_groups (without_newlines s)

-- A text that is not hexadecimal, that of a negative number, is cut at its fault.
unfoldable pub to_base64 : ℤ → Bytes
to_base64 number = encode (hex_decode (pad_zeros 64 (format_hex number))).0

-- -1 when the text is not base64, and when it decodes to no byte at all.
unfoldable pub from_base64 : Bytes → ℤ
from_base64 number = elim (decode number) [
  | none ↦ negsuc 0
  | some bytedata ↦ elim (set_string (hex_encode bytedata)) [ none ↦ negsuc 0 | some n ↦ pos n ]
]

-- `FormatData44bytes`: a text longer than 44 bytes is returned as it is.
unfoldable pub format_data_44_bytes : Bytes → Bytes
format_data_44_bytes s = if ltb 44 (length s) then s else pad_zeros 44 s
