-- ===== src/Sssa/Deal/Checked.antt =====
-- What `GenerateShares` deals, sent by `SendPointer`, passes the check of `DistributeMsg`.
use mathlib.Core.Option.{some-injective}
use address_verification.Base.{
  ℕ, suc, ◌+◌, ◌-◌, ◌%◌, ◌^◌, ◌<◌, ◌≤◌, ◌≡◌, refl, sym, ap, ap₂, ◌∙◌, List, [], ◌∷◌, map, Option,
  some, true, false, ltb, Bytes, length, get_elem?, arith, All,
}
use address_verification.Base.Int.{ℤ, pos}
use address_verification.Sssa.Base64.{to_base64, from_base64}
use address_verification.Sssa.Base64.RoundTrip.{from_base64-to_base64}
use address_verification.Sssa.Combine.{Point}
use address_verification.Sssa.Field.{default_prime, evaluate_polynomial}
use address_verification.Sssa.Field.Horner.{evaluate_polynomial-value}
use address_verification.Sssa.Lagrange.{value}
use address_verification.Sssa.Create.{pointer_at}
use address_verification.Sssa.Create.Shares.{create_from_int-IsSharing}
use address_verification.Sssa.Draw.{drawn}
use address_verification.Sssa.Draw.Post.{IsDrawn}
use address_verification.Sssa.Threshold.{
  same_ℤ, same_point, polynomial_point, pub_sum, store_share, check_shares,
}
use address_verification.Sssa.Threshold.Feldman.{HasPowers, pub_sum-value}
use address_verification.Sssa.Deal.{
  generate_shares, polynomial_msg, send_pointer, checked, distribute_msg,
}
use address_verification.Sssa.Deal.Run.{
  pointers-at, set_at-lt, ltb_ge, length-map, generate_shares-drawn,
}

same_ℤ_refl : (n : ℕ) → same_ℤ (pos n) (pos n) ≡ true
unfolding same_ℤ
same_ℤ_refl n = ground arith

-- A curve whose points are multiples of a generator of order `default_prime`, with coordinates below
-- 2 ^ 256.
pub record IsCurve (add : Point → Point → Point) (public_of : ℤ → Point) (of : ℕ → Point)
    : Type 0 where
  pub add_lem : (a b : ℕ) → add (of a) (of b) ≡ of (a + b)
  pub order_lem : (a : ℕ) → of (a % default_prime) ≡ of a
  pub public_lem : (a : ℕ) → public_of (pos a) ≡ of a
  pub x_of : ℕ → ℕ
  pub y_of : ℕ → ℕ
  pub point_lem : (a : ℕ) → of a ≡ (pos (x_of a), pos (y_of a))
  pub x_lem : (a : ℕ) → x_of a < 2 ^ 256
  pub y_lem : (a : ℕ) → y_of a < 2 ^ 256

module _ (add : Point → Point → Point) (public_of : ℤ → Point) (of : ℕ → Point)
    (curve : IsCurve add public_of of) where
  decoded_point : (a : ℕ) → polynomial_point (polynomial_msg (of a)) ≡ of a
  decoded_point a =
      ap (λ p. polynomial_point (polynomial_msg p)) (curve.point_lem a)
      ∙ ap₂ (λ (x y : ℤ). (x, y)) (from_base64-to_base64 (curve.x_of a) (curve.x_lem a))
          (from_base64-to_base64 (curve.y_of a) (curve.y_lem a))
      ∙ sym (curve.point_lem a)

  decoded_points :
      (cs : List ℕ)
      → map polynomial_point (map polynomial_msg (map (λ c. public_of (pos c)) cs)) ≡ map of cs
  decoded_points [] = refl
  decoded_points (c ∷ cs) =
      ap₂ (λ (p : Point) ps. p ∷ ps)
        (ap (λ p. polynomial_point (polynomial_msg p)) (curve.public_lem c) ∙ decoded_point c)
        (decoded_points cs)

  same_point_refl : (a : ℕ) → same_point (of a) (of a) ≡ true
  unfolding same_point
  same_point_refl a =
      ap (λ p. same_point p p) (curve.point_lem a)
      ∙ rw (same_ℤ_refl (curve.x_of a), same_ℤ_refl (curve.y_of a)) refl

  checked_sum :
      (ps : List (Bytes × Bytes)) (text : Bytes) (sum : Point) (y : ℤ) (server_id sender_id : ℕ)
      (shares_part : List (Option ℤ))
      → pub_sum add server_id (map polynomial_point ps) ≡ some sum
      → from_base64 text ≡ y
      → check_shares add public_of ps text server_id sender_id shares_part
        ≡ store_share (same_point sum (public_of y)) shares_part sender_id y
  unfolding check_shares
  checked_sum ps text sum y server_id sender_id shares_part e f = rw (e, check_shares) (rw f refl)

  -- The check of a value of the polynomial whose coefficients are published.
  check_shares-value :
      (c : ℕ) (cs : List ℕ) (server_id sender_id y : ℕ) (shares_part : List (Option ℤ))
      → c < default_prime
      → HasPowers server_id (suc (length cs))
      → evaluate_polynomial default_prime (c ∷ cs) server_id ≡ some y
      → check_shares add public_of
          (map polynomial_msg (map (λ c. public_of (pos c)) (c ∷ cs)))
          (to_base64 (pos y))
          server_id
          sender_id
          shares_part
        ≡ store_share true shares_part sender_id (pos y)
  check_shares-value c cs server_id sender_id y shares_part small powers e =
      let (r, e', same, below) = evaluate_polynomial-value p_pos c cs server_id small in
      let y_r : r ≡ y = some-injective _ _ (sym e' ∙ e) in
      let v = value (c ∷ cs) server_id in
      let of_y : of y ≡ of v =
        ap of (sym y_r) ∙ sym (curve.order_lem r) ∙ ap of same.same ∙ curve.order_lem v in
      checked_sum (map polynomial_msg (map (λ c. public_of (pos c)) (c ∷ cs))) (to_base64 (pos y))
        (of v) (pos y) server_id sender_id shares_part
        (ap (pub_sum add server_id) (decoded_points (c ∷ cs))
          ∙ pub_sum-value add of curve.add_lem server_id c cs powers)
        (from_base64-to_base64 y (omega (arith, below, y_r)))
      ∙ ap (λ b. store_share b shares_part sender_id (pos y))
          (ap (same_point (of v)) (curve.public_lem y ∙ of_y) ∙ same_point_refl v)
    where
      p_pos : 0 < default_prime
      p_pos = omega arith

  stored-distribute :
      (pubs : List Point) (server_id sender_id server_port y : ℕ) (shares_part : List (Option ℤ))
      → 2 ≤ length pubs
      → 0 < sender_id
      → sender_id ≤ length shares_part
      → sender_id < 2 ^ 16
      → check_shares add public_of
          (map polynomial_msg pubs)
          (to_base64 (pos y))
          server_id
          sender_id
          shares_part
        ≡ store_share true shares_part sender_id (pos y)
      → (stored : List (Option ℤ)) × (distribute_msg add public_of
            (send_pointer sender_id y pubs)
            server_id
            server_port
            shares_part
          ≡ some (checked true stored))
        × (get_elem? stored (sender_id - 1) ≡ some (some (pos y)))
  unfolding distribute_msg send_pointer store_share
  stored-distribute pubs server_id sender_id server_port y shares_part two h_sender room wide
        legal =
      let (stored, e, f) = set_at-lt shares_part (sender_id - 1) (some (pos y)) (omega arith) in
      let place : (sender_id + (2 ^ 16 - 1)) % 2 ^ 16 ≡ sender_id - 1 = omega arith in
      let long : ltb (length (map polynomial_msg pubs)) 2 ≡ false =
        ltb_ge (length (map polynomial_msg pubs)) 2
          (omega (arith, length-map polynomial_msg pubs)) in
      let kept : store_share true shares_part sender_id (pos y) ≡ some (true, stored) =
        rw (place, e, store_share) refl in
      (stored, rw (long, legal ∙ kept) refl, f)

  -- The message that a dealer sends to server `server_id`, with the public keys and the value that
  -- `GenerateShares` gives for it, is answered as legal, and the value is stored: when there are two
  -- coefficients or more, the powers of the server's number are `uint16`, the curve is one of order
  -- `default_prime`, and the sender's number is one of the places of `Sharespart`.
  pub distribute_msg-generate_shares :
      (minimum shares : ℕ) (draws rest : List ℕ) (pubs : List Point) (values : List ℕ)
      (server_id sender_id server_port y : ℕ) (shares_part : List (Option ℤ))
      → All IsDrawn draws
      → generate_shares public_of minimum shares draws ≡ drawn (pubs, values) rest
      → 2 ≤ minimum
      → 0 < server_id
      → get_elem? values (server_id - 1) ≡ some y
      → HasPowers server_id minimum
      → 0 < sender_id
      → sender_id ≤ length shares_part
      → sender_id < 2 ^ 16
      → (stored : List (Option ℤ)) × (distribute_msg add public_of
            (send_pointer sender_id y pubs)
            server_id
            server_port
            shares_part
          ≡ some (checked true stored))
        × (get_elem? stored (sender_id - 1) ≡ some (some (pos y)))
  unfolding pointer_at evaluate_polynomial
  distribute_msg-generate_shares minimum shares draws rest pubs values server_id sender_id
        server_port y shares_part h e h2 hs at powers h_sender room wide =
      let (made, left, run, pubs_lem, values_lem) =
        generate_shares-drawn public_of minimum shares draws rest pubs values (server_id - 1) y e
          at in
      let g = create_from_int-IsSharing minimum shares draws h run in
      let published : map (λ c. public_of (pos c)) (g.secret ∷ g.coefs) ≡ pubs =
        ap (map (λ c. public_of (pos c))) (sym g.polynomial_lem) ∙ pubs_lem in
      let dealt : evaluate_polynomial default_prime (g.secret ∷ g.coefs) server_id ≡ some y =
        ap (evaluate_polynomial default_prime (g.secret ∷ g.coefs)) (omega arith)
        ∙ pointers-at shares 1 _ made.pointer (server_id - 1) y g.pointer_lem
            (ap (λ l. get_elem? l (server_id - 1)) values_lem ∙ at) in
      let legal =
        ap
          (λ ps.
            check_shares add public_of (map polynomial_msg ps) (to_base64 (pos y)) server_id
              sender_id shares_part)
          (sym published)
        ∙ check_shares-value g.secret g.coefs server_id sender_id y shares_part g.small
            (λ i l. powers i (omega (arith, g.degree))) dealt in
      stored-distribute pubs server_id sender_id server_port y shares_part
        (omega (
          arith,
          ap length published,
          length-map (λ c. public_of (pos c)) (g.secret ∷ g.coefs),
          g.degree,
        ))
        h_sender room wide legal
