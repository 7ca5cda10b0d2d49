-- ===== src/Committee/Message.antt =====
-- `ExtractPubShareMsg`, `extractPubshare` and `InStringArraySet` of committee/pubshares.go.
-- `strconv.Atoi` is read off its documentation: an optional sign and
-- decimal digits within an `int64`.
pub mod Pieces
use address_verification.Base.{
  ℕ, zero, suc, ◌+◌, ◌-◌, ◌*◌, ◌/◌, ◌%◌, ◌^◌, List, [], ◌∷◌, Option, none, some, Bool, true, false,
  not, ◌&&◌, ltb, leb, ◌==◌, if◌then◌else◌, Bytes, length, drop, slice,
}
use address_verification.Base.Int.{ℤ, pos, ◌+ℤ◌, ◌-ℤ◌, ◌*ℤ◌, emod, ltb_ℤ}

-- Decimal digits behind those that make up `value`.
unfoldable pub digits_value : ℕ → Bytes → Option ℕ
digits_value value [] = some value
digits_value value (d ∷ ds) =
    let rest = digits_value (value * 10 + (d - 48)) ds in
    if leb 48 d && leb d 57 then rest else none

unfoldable pub unsigned : Bytes → Option ℕ
unfolding digits_value
unsigned [] = none
unsigned (d ∷ ds) = digits_value 0 (d ∷ ds)

-- A number that an `int64` holds.
unfoldable pub in_range : ℤ → Option ℤ
in_range n =
    if ltb_ℤ n (pos 0 -ℤ pos (2 ^ 63))
    then none
    else if ltb_ℤ (pos (2 ^ 63 - 1)) n
    then none
    else some n

unfoldable pub signed : Bool → Option ℕ → Option ℤ
unfolding in_range
signed negative none = none
signed true (some n) = in_range (pos 0 -ℤ pos n)
signed false (some n) = in_range (pos n)

-- `strconv.Atoi`, `none` for an error.
unfoldable pub atoi : Bytes → Option ℤ
unfolding unsigned signed
atoi [] = none
atoi (c ∷ cs) =
    if c == 45
    then signed true (unsigned cs)
    else if c == 43
    then signed false (unsigned cs)
    else signed false (unsigned (c ∷ cs))

-- The `int64` that is left of a result.
unfoldable pub wrap64 : ℤ → ℤ
wrap64 n = pos (emod (n +ℤ pos (2 ^ 63)) (2 ^ 64)) -ℤ pos (2 ^ 63)

-- What `ExtractPubShareMsg` returns beside its error.
pub record PubShareMsg : Type 0 where
  pub a1s1 : Bytes
  pub cert_id : ℤ
  pub sender_id : ℤ
  pub shares : Bytes

-- The message's fields once the three numbers are read.
unfoldable pub pub_share_msg : Bytes → ℤ → ℤ → ℤ → Option PubShareMsg
unfolding wrap64
pub_share_msg msg cert_id sender_id pub_shares_num =
    if ltb_ℤ (pos (length msg)) (wrap64 (pos 266 +ℤ wrap64 (pos 132 *ℤ pub_shares_num)))
    then none
    else some (record {
      a1s1 = slice msg 2 134;
      cert_id = cert_id;
      sender_id = sender_id;
      shares = drop 266 msg;
    })

-- The error of a number that does not parse ends the reading of the message.
unfoldable pub then_number : {B : Type 0} → Option ℤ → (ℤ → Option B) → Option B
then_number none f = none
then_number (some n) f = f n

unfoldable pub extract_pub_share_msg : Bytes → Option PubShareMsg
unfolding atoi then_number pub_share_msg
extract_pub_share_msg msg =
    let fields = then_number (atoi (slice msg 134 178)) λ cert_id.
      then_number (atoi (slice msg 178 222)) λ sender_id.
        then_number (atoi (slice msg 222 266))
          λ pub_shares_num. pub_share_msg msg cert_id sender_id pub_shares_num in
    if ltb (length msg) (266 + 132) then none else fields

-- The shares i, …, i + count - 1 of 132 bytes.
unfoldable pub pubshare_pieces : ℕ → ℕ → Bytes → List Bytes
pubshare_pieces zero i pub_shares = []
pubshare_pieces (suc count) i pub_shares =
    slice pub_shares (0 + 132 * i) (132 + 132 * i) ∷ pubshare_pieces count (i + 1) pub_shares

-- `extractPubshare`, `none` where it returns false.
unfoldable pub extract_pubshare : Bytes → Option (List Bytes)
unfolding pubshare_pieces
extract_pubshare pub_shares =
    if not (length pub_shares % 132 == 0)
    then none
    else some (pubshare_pieces (length pub_shares / 132) 0 pub_shares)

-- The loop of `InStringArraySet` over the checks from number i on.
unfoldable pub any_check : ℕ → ℕ → List ℤ → Bool
any_check sender_id i [] = false
any_check sender_id i (check ∷ checks) =
    let rest = any_check sender_id (i + 1) checks in
    if (i == sender_id) && is_one check then true else rest
  where
    is_one : ℤ → Bool
    is_one (pos (suc zero)) = true
    is_one _ = false

-- `InStringArraySet`: `checks` is the list under the key, if there is one.
unfoldable pub in_string_array_set : Option (List ℤ) → ℕ → Bool
unfolding any_check
in_string_array_set none sender_id = false
in_string_array_set (some checks) sender_id = any_check sender_id 0 checks
