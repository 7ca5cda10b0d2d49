-- ===== src/Committee/Publish/RoundTrip.antt =====
-- What `GeneratePubShare` prints, behind the fields of a message, is read back by
-- `ExtractPubShareMsg` and `extractPubshare`.
use address_verification.Base.{
  ℕ, ◌+◌, ◌*◌, ◌^◌, ◌<◌, ◌≤◌, ◌≡◌, refl, sym, ap, ap₂, ◌∙◌, List, [], ◌∷◌, ◌++◌, map, some, false,
  ltb, Bytes, length, take, drop, slice, All, length-append, length-take, take-append_exact,
  drop-append_exact, append_assoc, arith,
}
use address_verification.Base.Int.{ℤ, pos, ◌+ℤ◌, ◌-ℤ◌, ◌*ℤ◌, emod, ltb_ℤ}
use address_verification.Sssa.Base64.{to_base64, from_base64, format_data_44_bytes}
use address_verification.Sssa.Base64.RoundTrip.{length-to_base64}
use address_verification.Committee.Message.{
  atoi, wrap64, pub_share_msg, extract_pub_share_msg, then_number, extract_pubshare,
}
use address_verification.Committee.Message.Pieces.{concat, concat-extract_pubshare}
use address_verification.Committee.Publish.{
  itoa, share_pub_piece, share_pub_str, generate_pub_share,
}
use address_verification.Committee.Publish.Decimal.{atoi-itoa, length-format_itoa}

concat-injective :
    (l m : List Bytes)
    → All (λ piece. length piece ≡ 132) l
    → All (λ piece. length piece ≡ 132) m
    → concat l ≡ concat m
    → l ≡ m
concat-injective [] [] hl hm e = refl
concat-injective [] (b ∷ m) hl (hb, hm) e =
    absurd (omega (arith, ap length e, length-append b (concat m), hb))
concat-injective (a ∷ l) [] (ha, hl) hm e =
    absurd (omega (arith, ap length e, length-append a (concat l), ha))
concat-injective (a ∷ l) (b ∷ m) (ha, hl) (hb, hm) e =
    ap₂ (λ (x : Bytes) xs. x ∷ xs)
      (sym (take-append_exact a (concat l) 132 ha)
        ∙ ap (take 132) e
        ∙ take-append_exact b (concat m) 132 hb)
      (concat-injective l m hl hm (
        sym (drop-append_exact a (concat l) 132 ha)
        ∙ ap (drop 132) e
        ∙ drop-append_exact b (concat m) 132 hb))

slice_exact :
    (a b c : Bytes) (i k : ℕ) → length a ≡ i → length b ≡ k → slice (a ++ (b ++ c)) i (i + k) ≡ b
slice_exact a b c i k ha hb =
    ap₂ (λ (w : ℕ) (l : Bytes). take w l) (omega arith) (drop-append_exact a (b ++ c) i ha)
    ∙ take-append_exact b c k hb

wrap64-pos : (n : ℕ) → n < 2 ^ 63 → wrap64 (pos n) ≡ pos n
unfolding wrap64 ◌+ℤ◌ ◌-ℤ◌ emod
wrap64-pos n h = ground arith

needed :
    (n : ℕ)
    → 266 + 132 * n < 2 ^ 63
    → wrap64 (pos 266 +ℤ wrap64 (pos 132 *ℤ pos n)) ≡ pos (266 + 132 * n)
unfolding ◌*ℤ◌ ◌+ℤ◌
needed n h =
    ap (λ (z : ℤ). wrap64 (pos 266 +ℤ z))
      (ap wrap64 (product n) ∙ wrap64-pos (132 * n) (omega arith))
    ∙ ap wrap64 (sum n)
    ∙ wrap64-pos (266 + 132 * n) h
  where
    product : (n : ℕ) → pos 132 *ℤ pos n ≡ pos (132 * n)
    product n = ground arith

    sum : (n : ℕ) → pos 266 +ℤ pos (132 * n) ≡ pos (266 + 132 * n)
    sum n = ground arith

ltb_ge : (a b : ℕ) → b ≤ a → ltb a b ≡ false
ltb_ge a b h = ground arith

-- A message whose numbers parse, and that is as long as the third one asks for.
extract_read :
    (m a1s1 shares : Bytes) (cert sender n : ℕ)
    → length m ≡ 266 + 132 * n
    → 0 < n
    → 266 + 132 * n < 2 ^ 63
    → atoi (slice m 134 178) ≡ some (pos cert)
    → atoi (slice m 178 222) ≡ some (pos sender)
    → atoi (slice m 222 266) ≡ some (pos n)
    → slice m 2 134 ≡ a1s1
    → drop 266 m ≡ shares
    → extract_pub_share_msg m
      ≡ some (record { a1s1 = a1s1; cert_id = pos cert; sender_id = pos sender; shares = shares })
unfolding extract_pub_share_msg then_number pub_share_msg
extract_read m a1s1 shares cert sender n size some_share bound found_c found_s found_k fields rest =
    let long : ltb (length m) (266 + 132) ≡ false = ltb_ge (length m) 398 (omega (arith, size)) in
    let fits : ltb_ℤ (pos (length m)) (pos (266 + 132 * n)) ≡ false =
      ltb_ge (length m + 0) (266 + 132 * n + 0) (omega (arith, size)) in
    rw (long, extract_pub_share_msg)
      (rw (found_c, found_s, found_k, then_number, needed n bound, fits, pub_share_msg)
        (ap₂
          (λ (a r : Bytes).
            some (record { a1s1 = a; cert_id = pos cert; sender_id = pos sender; shares = r }))
          fields rest))

-- A message of fields with the widths that `ExtractPubShareMsg` cuts, whose numbers parse.
module _ (start a1s1 c s k shares : Bytes) (cert sender n : ℕ) (h_start : length start ≡ 2)
    (h_a1s1 : length a1s1 ≡ 132) (h_c : length c ≡ 44) (h_s : length s ≡ 44) (h_k : length k ≡ 44)
    (h_shares : length shares ≡ 132 * n) (some_share : 0 < n) (bound : 266 + 132 * n < 2 ^ 63)
    (read_c : atoi c ≡ some (pos cert)) (read_s : atoi s ≡ some (pos sender))
    (read_k : atoi k ≡ some (pos n)) where
  extract_fields :
      extract_pub_share_msg (start ++ (a1s1 ++ (c ++ (s ++ (k ++ shares)))))
      ≡ some (record { a1s1 = a1s1; cert_id = pos cert; sender_id = pos sender; shares = shares })
  extract_fields =
      let m = start ++ (a1s1 ++ (c ++ (s ++ (k ++ shares)))) in
      let a = start ++ a1s1 in
      let size_a : length a ≡ 134 = omega (arith, length-append start a1s1) in
      let size_c : length (a ++ c) ≡ 178 = omega (arith, length-append a c) in
      let size_s : length (a ++ c ++ s) ≡ 222 = omega (arith, length-append (a ++ c) s) in
      let size_k : length (a ++ c ++ s ++ k) ≡ 266 = omega (arith, length-append (a ++ c ++ s) k) in
      let by_a : m ≡ a ++ (c ++ (s ++ (k ++ shares))) = sym (append_assoc start a1s1 _) in
      let by_c : m ≡ a ++ c ++ (s ++ (k ++ shares)) = by_a ∙ sym (append_assoc a c _) in
      let by_s : m ≡ a ++ c ++ s ++ (k ++ shares) = by_c ∙ sym (append_assoc (a ++ c) s _) in
      let by_k : m ≡ a ++ c ++ s ++ k ++ shares =
        by_s ∙ sym (append_assoc (a ++ c ++ s) k shares) in
      let size : length m ≡ 266 + 132 * n =
        ap length by_k ∙ length-append (a ++ c ++ s ++ k) shares ∙ omega arith in
      let found_c : atoi (slice m 134 178) ≡ some (pos cert) =
        ap (λ l. atoi (slice l 134 178)) by_a
        ∙ ap atoi (slice_exact a c (s ++ (k ++ shares)) 134 44 size_a h_c)
        ∙ read_c in
      let found_s : atoi (slice m 178 222) ≡ some (pos sender) =
        ap (λ l. atoi (slice l 178 222)) by_c
        ∙ ap atoi (slice_exact (a ++ c) s (k ++ shares) 178 44 size_c h_s)
        ∙ read_s in
      let found_k : atoi (slice m 222 266) ≡ some (pos n) =
        ap (λ l. atoi (slice l 222 266)) by_s
        ∙ ap atoi (slice_exact (a ++ c ++ s) k shares 222 44 size_s h_k)
        ∙ read_k in
      let fields = slice_exact start a1s1 (c ++ (s ++ (k ++ shares))) 2 132 h_start h_a1s1 in
      let rest : drop 266 m ≡ shares =
        ap (drop 266) by_k ∙ drop-append_exact (a ++ c ++ s ++ k) shares 266 size_k in
      extract_read m a1s1 shares cert sender n size some_share bound found_c found_s found_k fields
        rest

module _ {P : Type 0} (multiply : ℤ → P → ℤ × ℤ) where
  -- A message: two bytes that are skipped, A1S1, the numbers of the certificate and the sender, and
  -- what `GeneratePubShare` prints.
  abbrev pub committee_msg : Bytes → Bytes → ℕ → ℕ → Bytes → List P → Bytes
  committee_msg start a1s1 cert sender private_shares keys =
      start
      ++ (a1s1
          ++ (format_data_44_bytes (itoa cert)
              ++ (format_data_44_bytes (itoa sender)
                  ++ generate_pub_share multiply private_shares keys)))

module _ {P : Type 0} (multiply : ℤ → P → ℤ × ℤ)
    (multiply_lem : (share : ℤ) (key : P)
      → (x : ℕ) × (y : ℕ) × (multiply share key ≡ (pos x, pos y))
        × (x < 2 ^ 256)
        × (y < 2 ^ 256)) where
  length-share_pub_piece :
      (id : Bytes) (share : ℤ) (key : P)
      → length id ≡ 44
      → length (share_pub_piece multiply id share key) ≡ 132
  unfolding share_pub_piece
  length-share_pub_piece id share key h =
      let (x, y, e, hx, hy) = multiply_lem share key in
      let start : length (share_pub_piece multiply id share key)
          ≡ length (id ++ to_base64 (pos x) ++ to_base64 (pos y)) =
        ap (λ (p : ℤ × ℤ). length (id ++ to_base64 p.0 ++ to_base64 p.1)) e in
      start
      ∙ omega (
        arith,
        length-append (id ++ to_base64 (pos x)) (to_base64 (pos y)),
        length-append id (to_base64 (pos x)),
        length-to_base64 x hx,
        length-to_base64 y hy,
      )

  pieces-size :
      (id : Bytes) (share : ℤ) (keys : List P)
      → length id ≡ 44
      → All (λ piece. length piece ≡ 132) (map (share_pub_piece multiply id share) keys)
  pieces-size id share [] h = tt
  pieces-size id share (key ∷ keys) h =
      (length-share_pub_piece id share key h, pieces-size id share keys h)

  concat-pieces :
      (id : Bytes) (share : ℤ) (keys : List P)
      → concat (map (share_pub_piece multiply id share) keys) ≡ share_pub_str multiply id share keys
  unfolding share_pub_str
  concat-pieces id share [] = refl
  concat-pieces id share (key ∷ keys) =
      ap (λ l. share_pub_piece multiply id share key ++ l) (concat-pieces id share keys)

  pub length-share_pub_str :
      (id : Bytes) (share : ℤ) (keys : List P)
      → length id ≡ 44
      → length (share_pub_str multiply id share keys) ≡ 132 * length keys
  unfolding share_pub_str
  length-share_pub_str id share [] h = refl
  length-share_pub_str id share (key ∷ keys) h = omega (
    arith,
    length-append (share_pub_piece multiply id share key) (share_pub_str multiply id share keys),
    length-share_pub_piece id share key h,
    length-share_pub_str id share keys h,
  )

  pub extract_pubshare-share_pub_str :
      (id : Bytes) (share : ℤ) (keys : List P)
      → length id ≡ 44
      → extract_pubshare (share_pub_str multiply id share keys)
        ≡ some (map (share_pub_piece multiply id share) keys)
  extract_pubshare-share_pub_str id share keys h =
      let (pieces, cut, whole, size, _) =
        concat-extract_pubshare (share_pub_str multiply id share keys) (length keys)
          (length-share_pub_str id share keys h) in
      cut
      ∙ ap some (
          concat-injective pieces (map (share_pub_piece multiply id share) keys) size
            (pieces-size id share keys h) (whole ∙ sym (concat-pieces id share keys)))

  -- From a message of two bytes, 132 bytes A1S1, the numbers of certificate and sender in an `int64`,
  -- and what `GeneratePubShare` prints of a share with 44 bytes in front and at least one key,
  -- `ExtractPubShareMsg` reads the fields, and `extractPubshare` the texts of the keys, where
  -- `ScalarMult` gives coordinates below 2 ^ 256 and the message's length fits in an `int64`.
  pub extract_pub_share_msg-generate_pub_share :
      (start a1s1 : Bytes) (cert sender : ℕ) (private_shares : Bytes) (keys : List P)
      → length start ≡ 2
      → length a1s1 ≡ 132
      → cert < 2 ^ 63
      → sender < 2 ^ 63
      → 44 ≤ length private_shares
      → 0 < length keys
      → 266 + 132 * length keys < 2 ^ 63
      → (shares : Bytes) × (extract_pub_share_msg
            (committee_msg multiply start a1s1 cert sender private_shares keys)
          ≡ some
              (record { a1s1 = a1s1; cert_id = pos cert; sender_id = pos sender; shares = shares }))
        × (extract_pubshare shares
            ≡ some (
                map
                  (share_pub_piece multiply
                    (take 44 private_shares)
                    (from_base64 (drop 44 private_shares)))
                  keys))
  unfolding generate_pub_share
  extract_pub_share_msg-generate_pub_share start a1s1 cert sender private_shares keys h2 h132 hc hs
        hp hk hn =
      let id = take 44 private_shares in
      let share = from_base64 (drop 44 private_shares) in
      let id_size : length id ≡ 44 = omega (arith, length-take 44 private_shares) in
      let shares = share_pub_str multiply id share keys in
      (
        shares,
        extract_fields start a1s1 _ _ _ shares cert sender (length keys) h2 h132
            (length-format_itoa cert) (length-format_itoa sender) (length-format_itoa (length keys))
            (length-share_pub_str id share keys id_size) hk hn (atoi-itoa cert hc)
            (atoi-itoa sender hs) (atoi-itoa (length keys) (omega arith)),
        extract_pubshare-share_pub_str id share keys id_size,
      )
