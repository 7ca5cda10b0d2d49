-- ===== src/Sssa/Base64/RoundTrip.antt =====
-- `fromBase64` undoes `toBase64`.
use address_verification.Base.{
  ℕ, ◌+◌, ◌*◌, ◌/◌, ◌%◌, ◌<◌, ◌^◌, ◌≡◌, ◌≢◌, refl, ap, ◌∙◌, [], ◌∷◌, some, false, arith, Bytes,
  length, All, ◌==◌,
}
use address_verification.Base.Int.{pos}
use address_verification.Sssa.Hex.{hex_encode, set_string}
use address_verification.Sssa.Hex.Digits.{IsByte, big_endian, read_hex-hex_encode, padded, decoded}
use address_verification.Sssa.Base64.{
  encode_digit, decode_digit, encode, without_newlines, last_one, last_two, group, decode_groups,
  decode, to_base64, from_base64,
}

decode_digit-encode_digit : (v : ℕ) → v < 64 → decode_digit (encode_digit v) ≡ some v
unfolding decode_digit encode_digit
decode_digit-encode_digit v h = ground arith

-- A digit is neither the padding nor a line end.
encode_digit-ne :
    (v : ℕ) → (encode_digit v ≢ b'=') × (encode_digit v ≢ b'\n') × (encode_digit v ≢ b'\r')
unfolding encode_digit
encode_digit-ne v = ground arith

not_pad : (v : ℕ) → (encode_digit v == b'=') ≡ false
not_pad v = ground (arith, (encode_digit-ne v).0)

-- Each kind of group is decoded from the digits that its bytes were split into.
last_one-encode_digit :
    (x y : ℕ)
    → x < 64
    → y < 64
    → last_one (encode_digit x) (encode_digit y) [] ≡ some ((x * 4 + y / 16) ∷ [])
unfolding last_one
last_one-encode_digit x y hx hy =
    rw (decode_digit-encode_digit x hx, last_one, decode_digit-encode_digit y hy)

last_two-encode_digit :
    (x y z : ℕ)
    → x < 64
    → y < 64
    → z < 64
    → last_two (encode_digit x) (encode_digit y) (encode_digit z) []
      ≡ some ((x * 4 + y / 16) ∷ (y % 16 * 16 + z / 4) ∷ [])
unfolding last_two
last_two-encode_digit x y z hx hy hz = rw (
  decode_digit-encode_digit x hx,
  last_two,
  decode_digit-encode_digit y hy,
  decode_digit-encode_digit z hz,
)

group-encode_digit :
    (x y z w : ℕ) (bs : Bytes)
    → x < 64
    → y < 64
    → z < 64
    → w < 64
    → group (encode_digit x) (encode_digit y) (encode_digit z) (encode_digit w) (some bs)
      ≡ some ((x * 4 + y / 16) ∷ (y % 16 * 16 + z / 4) ∷ (z % 4 * 64 + w) ∷ bs)
unfolding group
group-encode_digit x y z w bs hx hy hz hw = rw (
  decode_digit-encode_digit x hx,
  group,
  decode_digit-encode_digit y hy,
  decode_digit-encode_digit z hz,
  decode_digit-encode_digit w hw,
)

bytes_eq : {a b : ℕ} {s t : Bytes} → a ≡ b → s ≡ t → ◌≡◌ {A = Bytes} (a ∷ s) (b ∷ t)
bytes_eq h k = λ i. h i ∷ k i

decode_groups-encode : (bs : Bytes) → All IsByte bs → decode_groups (encode bs) ≡ some bs
unfolding decode_groups encode
decode_groups-encode [] h = refl
decode_groups-encode (a ∷ []) (ha, _) =
    last_one-encode_digit (a / 4) (a % 4 * 16) (omega arith) (omega arith)
    ∙ ap some (bytes_eq (omega arith) refl)
decode_groups-encode (a ∷ b ∷ []) (ha, (hb, _)) = rw (not_pad (b % 16 * 4)) (
    last_two-encode_digit (a / 4) (a % 4 * 16 + b / 16) (b % 16 * 4) (omega arith) (omega arith)
      (omega arith)
    ∙ ap some (bytes_eq (omega arith) (bytes_eq (omega arith) refl)))
decode_groups-encode (a ∷ b ∷ c ∷ s) (ha, (hb, (hc, hs))) =
    rw (not_pad (b % 16 * 4 + c / 64), not_pad (c % 64), decode_groups-encode s hs)
      (group-encode_digit (a / 4) (a % 4 * 16 + b / 16) (b % 16 * 4 + c / 64) (c % 64) s
          (omega arith) (omega arith) (omega arith) (omega arith)
        ∙ ap some (bytes_eq (omega arith) (bytes_eq (omega arith) (bytes_eq (omega arith) refl))))

NoNewline : ℕ → Type 0
NoNewline c = (c ≢ b'\n') × (c ≢ b'\r')

without_newlines_id : (s : Bytes) → All NoNewline s → without_newlines s ≡ s
unfolding without_newlines NoNewline
without_newlines_id [] h = refl
without_newlines_id (c ∷ s) h = ground (arith, without_newlines_id s h.1)

encode_digit-NoNewline : (v : ℕ) → NoNewline (encode_digit v)
unfolding NoNewline
encode_digit-NoNewline v = let (_, lf, cr) = encode_digit-ne v in (lf, cr)

pad-NoNewline : NoNewline b'='
unfolding NoNewline
pad-NoNewline = omega arith

encode-NoNewline : (bs : Bytes) → All NoNewline (encode bs)
unfolding encode
encode-NoNewline [] = tt
encode-NoNewline (a ∷ []) =
    (encode_digit-NoNewline _, (encode_digit-NoNewline _, (pad-NoNewline, (pad-NoNewline, tt))))
encode-NoNewline (a ∷ b ∷ []) = (
  encode_digit-NoNewline _,
  (encode_digit-NoNewline _, (encode_digit-NoNewline _, (pad-NoNewline, tt))),
)
encode-NoNewline (a ∷ b ∷ c ∷ s) = (
  encode_digit-NoNewline _,
  (
    encode_digit-NoNewline _,
    (encode_digit-NoNewline _, (encode_digit-NoNewline _, encode-NoNewline s)),
  ),
)

-- Base64 decoding undoes encoding, for all bytes.
pub decode-encode : (bs : Bytes) → All IsByte bs → decode (encode bs) ≡ some bs
unfolding decode
decode-encode bs h =
    rw (without_newlines_id (encode bs) (encode-NoNewline bs)) (decode_groups-encode bs h)

length-encode : (bs : Bytes) → length (encode bs) ≡ (length bs + 2) / 3 * 4
unfolding encode
length-encode [] = refl
length-encode (a ∷ []) = refl
length-encode (a ∷ b ∷ []) = refl
length-encode (a ∷ b ∷ c ∷ s) = omega (arith, length-encode s)

-- The bytes behind the text of a number below 2^256.
number_bytes :
    (n : ℕ)
    → n < 2 ^ 256
    → (bs : Bytes) × (to_base64 (pos n) ≡ encode bs)
      × All IsByte bs
      × (length bs ≡ 32)
      × (big_endian bs 0 ≡ n)
unfolding to_base64
number_bytes n h =
    let (ds, text, digits, value, count) = padded n 63 h in
    let (bs, e, bytes, size, same) = decoded 32 ds count digits in
    (bs, rw (text, e), bytes, size, same 0 ∙ value)

-- Every number below 2^256 is printed in 44 characters.
pub length-to_base64 : (n : ℕ) → n < 2 ^ 256 → length (to_base64 (pos n)) ≡ 44
length-to_base64 n h =
    let (bs, e, _, size, _) = number_bytes n h in rw e (length-encode bs ∙ rw size)

set_string-hex_encode :
    (bs : Bytes)
    → length bs ≡ 32
    → All IsByte bs
    → set_string (hex_encode bs) ≡ some (big_endian bs 0)
unfolding set_string hex_encode
set_string-hex_encode [] size h = absurd (omega arith)
set_string-hex_encode (b ∷ bs) size h = read_hex-hex_encode (b ∷ bs) 0 h

-- Every number below 2^256 is read back from its print.
pub from_base64-to_base64 : (n : ℕ) → n < 2 ^ 256 → from_base64 (to_base64 (pos n)) ≡ pos n
unfolding from_base64
from_base64-to_base64 n h =
    let (bs, e, bytes, size, value) = number_bytes n h in
    rw (e, from_base64, decode-encode bs bytes, set_string-hex_encode bs size bytes) (ap pos value)
