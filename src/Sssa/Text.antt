-- ===== src/Sssa/Text.antt =====
-- A secret as 256-bit numbers: `splitByteToInt` and `mergeIntToByte` of sssa/utils.go.
pub mod Digits
pub mod Chunks
pub mod RoundTrip
mod Tests
use address_verification.Base.{
  ℕ, zero, suc, ◌+◌, ◌-◌, ◌*◌, ◌/◌, List, [], ◌∷◌, ◌++◌, Option, none, some, ltb, ◌==◌,
  if◌then◌else◌, Bytes, length, drop, slice, replicate,
}
use address_verification.Base.Int.{pos}
use address_verification.Sssa.Hex.{hex_decode, hex_encode, set_string, format_hex}

-- The 64 digits of round i, with zeros behind where the text is shorter.
unfoldable pub chunk : Bytes → ℕ → Bytes
chunk hex_data i =
    if ltb ((i + 1) * 64) (length hex_data)
    then slice hex_data (i * 64) ((i + 1) * 64)
    else drop (i * 64) hex_data ++ replicate (64 - (length hex_data - i * 64)) b'0'

-- `count` rounds from round i on; `none` would be a nil entry.
unfoldable pub split_chunks : ℕ → ℕ → Bytes → Option (List ℕ)
split_chunks zero i hex_data = some []
split_chunks (suc count) i hex_data =
    let rest = split_chunks count (i + 1) hex_data in
    elim (set_string (chunk hex_data i)) [
      | none ↦ none
      | some n ↦ elim rest [ none ↦ none | some ns ↦ some (n ∷ ns) ]
    ]

-- `int(math.Ceil(float64(len(hex_data)) / 64.0))` rounds.
unfoldable pub split_byte_to_int : Bytes → Option (List ℕ)
split_byte_to_int secret =
    let hex_data = hex_encode secret in split_chunks ((length hex_data + 63) / 64) 0 hex_data

-- `none`: `strings.Repeat` panics on a negative count.
unfoldable pub merge_digits : List ℕ → Option Bytes
merge_digits [] = some []
merge_digits (n ∷ ns) =
    let tmp = format_hex (pos n) in
    let rest = merge_digits ns in
    if ltb 64 (length tmp) then none else elim rest [
      | none ↦ none
      | some hex_data ↦ some (replicate (64 - length tmp) b'0' ++ tmp ++ hex_data)
    ]

-- `bytes.TrimRight(result, "\x00")`.
unfoldable pub trim_right : Bytes → Bytes
trim_right [] = []
trim_right (b ∷ bs) = elim (trim_right bs) [
  | [] ↦ if b == 0 then [] else b ∷ []
  | c ∷ cs ↦ b ∷ c ∷ cs
]

unfoldable pub merge_int_to_byte : List ℕ → Option Bytes
merge_int_to_byte secret = elim (merge_digits secret) [
  | none ↦ none
  | some hex_data ↦ some (trim_right (hex_decode hex_data).0)
]
