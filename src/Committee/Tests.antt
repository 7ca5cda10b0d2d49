-- ===== src/Committee/Tests.antt =====
-- The cutting of a message's shares at a concrete input.
use address_verification.Base.{
  ℕ, ◌*◌, ◌%◌, ◌^◌, ◌<◌, ◌≡◌, ◌↔◌, ◌+◌, Bool, true, refl, List, [], ◌∷◌, map, some, Bytes, length,
  replicate, take, drop, arith,
}
use address_verification.Base.Int.{ℤ, pos, pos_part}
use address_verification.Sssa.Base64.{from_base64}
use address_verification.Committee.Publish.{share_pub_piece}
use address_verification.Committee.Publish.RoundTrip.{
  committee_msg, extract_pub_share_msg-generate_pub_share,
}
use address_verification.Committee.Message.{extract_pubshare, extract_pub_share_msg}
use address_verification.Committee.Match.{Scanner, check_get_valid_a1s1}
use address_verification.Committee.Match.Found.{IsMatched, check_get_valid_a1s1_iff}

-- A curve of numbers, for the printing of shares.
abbrev times : ℤ → ℕ → ℤ × ℤ
times share key = (pos (key % 2 ^ 256), pos (3 * key % 2 ^ 256))

times_lem :
    (share : ℤ) (key : ℕ)
    → (x : ℕ) × (y : ℕ) × (times share key ≡ (pos x, pos y)) × (x < 2 ^ 256) × (y < 2 ^ 256)
times_lem share key = (key % 2 ^ 256, 3 * key % 2 ^ 256, refl, omega arith, omega arith)

abbrev own_share : Bytes
own_share = replicate 88 b'A'

extract_pub_share_msg-generate_pub_share_example :
    (shares : Bytes) × (extract_pub_share_msg
        (committee_msg times (replicate 2 b'0') (replicate 132 b'1') 7 2 own_share (11 ∷ 12 ∷ []))
      ≡ some (record {
        a1s1 = replicate 132 b'1';
        cert_id = pos 7;
        sender_id = pos 2;
        shares = shares;
      }))
    × (extract_pubshare shares
        ≡ some (
            map
              (share_pub_piece times (take 44 own_share) (from_base64 (drop 44 own_share)))
              (11 ∷ 12 ∷ [])))
extract_pub_share_msg-generate_pub_share_example =
    extract_pub_share_msg-generate_pub_share times times_lem (replicate 2 b'0') (replicate 132 b'1')
      7 2 own_share (11 ∷ 12 ∷ []) refl refl (omega arith) (omega arith) (omega arith) (omega arith)
      (omega arith)

-- A scan over a curve of numbers.
abbrev scanner : Scanner ℕ ℕ
scanner = record {
  curve = record {
    scalar_mult = λ x y w. some (pos_part x * w % 2 ^ 256);
    add = λ a b. (a + b) % 2 ^ 256;
    from_ecdsa_pub = λ a. a ∷ [];
  };
  generate_pk_pair = λ address. some ((pos (length address), pos 0), 3);
  scan_pub_shares_a1 = λ combined key. (pos (132 * length combined), pos 0);
}

-- Two messages of one share each under every address.
abbrev msg_map : Bytes → List Bytes
msg_map _ = replicate 132 b'A' ∷ replicate 132 b'B' ∷ []

check_get_valid_a1s1_iff_example :
    (b : Bool) × (check_get_valid_a1s1 scanner msg_map (replicate 132 b'1') ≡ some b)
    × ((b ≡ true)
        ↔ IsMatched scanner
            (msg_map (replicate 132 b'1'))
            (scanner.generate_pk_pair (replicate 132 b'1')))
check_get_valid_a1s1_iff_example =
    check_get_valid_a1s1_iff scanner msg_map (replicate 132 b'1') (refl, (refl, tt))
