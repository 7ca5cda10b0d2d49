-- ===== src/Committee/Publish.antt =====
-- `GeneratePubShare` of committee/pubshares.go, which prints what `ExtractPubShareMsg` and
-- `extractPubshare` read. The share of the member is an argument, where the code has a text; the
-- curve's `ScalarMult` by the share is a parameter.
pub mod Decimal
pub mod RoundTrip
use address_verification.Base.{
  ℕ, zero, suc, ◌+◌, ◌/◌, ◌%◌, List, [], ◌∷◌, ◌++◌, ltb, if◌then◌else◌, Bytes, length, take, drop,
}
use address_verification.Base.Int.{ℤ, pos}
use address_verification.Sssa.Base64.{to_base64, from_base64, format_data_44_bytes}

-- The decimal digits of a number, with fuel for their count.
unfoldable pub itoa_digits : ℕ → ℕ → Bytes
itoa_digits zero n = []
itoa_digits (suc fuel) n =
    let front = itoa_digits fuel (n / 10) in
    if ltb n 10 then (48 + n) ∷ [] else front ++ (48 + n % 10) ∷ []

-- `strconv.Itoa` of a length, which an `int64` holds.
unfoldable pub itoa : ℕ → Bytes
itoa n = itoa_digits 20 n

-- `multiply` is `ScalarMult` by the bytes of a number.
module _ {P : Type 0} (multiply : ℤ → P → ℤ × ℤ) where
  -- The text for one key.
  unfoldable pub share_pub_piece : Bytes → ℤ → P → Bytes
  share_pub_piece id share key = let (x, y) = multiply share key in id ++ to_base64 x ++ to_base64 y

  unfoldable pub share_pub_str : Bytes → ℤ → List P → Bytes
  share_pub_str id share [] = []
  share_pub_str id share (key ∷ keys) = share_pub_piece id share key ++ share_pub_str id share keys

  -- `GeneratePubShare`, of a share that is printed with its number in front.
  unfoldable pub generate_pub_share : Bytes → List P → Bytes
  generate_pub_share private_shares pub_set =
      format_data_44_bytes (itoa (length pub_set))
      ++ share_pub_str (take 44 private_shares) (from_base64 (drop 44 private_shares)) pub_set
