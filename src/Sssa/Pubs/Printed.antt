-- ===== src/Sssa/Pubs/Printed.antt =====
-- `CombineECDSAPubs` reads the shares that are printed as three texts of 44 characters.
use address_verification.Base.{
  ℕ, ◌/◌, ◌^◌, ◌<◌, ◌≡◌, ap, ◌∙◌, [], ◌∷◌, ◌++◌, true, arith, length, length-append, append-nil,
  append_assoc, take-append_exact, drop-append_exact, take, drop, Bytes,
}
use address_verification.Base.Int.{pos}
use address_verification.Sssa.Field.{default_prime}
use address_verification.Sssa.Base64.{to_base64, from_base64}
use address_verification.Sssa.Base64.RoundTrip.{length-to_base64, from_base64-to_base64}
use address_verification.Sssa.Combine.{is_valid_share}
use address_verification.Sssa.Pubs.{
  Curve, Triple, share_triples, decode_pub_shares, pub_part, pub_parts, secret_pubs, add_pubs,
  combine_ecdsa_pubs,
}

-- A share as `GeneratePubShare` prints it, with its number in front.
abbrev pub print_pub_share : ℕ → ℕ → ℕ → Bytes
print_pub_share x px py = to_base64 (pos x) ++ to_base64 (pos px) ++ to_base64 (pos py)

fits : (n : ℕ) → n < default_prime → n < 2 ^ 256
fits n h = omega arith

-- Three texts of 44 characters.
module _ (s t u : Bytes) (hs : length s ≡ 44) (ht : length t ≡ 44) (hu : length u ≡ 44) where
  first_third : take 44 (s ++ t ++ u) ≡ s
  first_third = ap (take 44) (append_assoc s t u) ∙ take-append_exact s (t ++ u) 44 hs

  drop_first : drop 44 (s ++ t ++ u) ≡ t ++ u
  drop_first = ap (drop 44) (append_assoc s t u) ∙ drop-append_exact s (t ++ u) 44 hs

  second_third : take 44 (drop 44 (s ++ t ++ u)) ≡ t
  second_third = ap (take 44) drop_first ∙ take-append_exact t u 44 ht

  drop_second : drop 88 (s ++ t ++ u) ≡ u
  drop_second = drop-append_exact (s ++ t) u 88 (omega (arith, length-append s t))

  last_third : take 44 (drop 88 (s ++ t ++ u)) ≡ u
  last_third = ap (take 44) drop_second ∙ rw (append-nil) at (take-append_exact u [] 44 hu)

  three-length : length (s ++ t ++ u) ≡ 132
  three-length = omega (arith, length-append (s ++ t) u, length-append s t)

  three_all : take 132 (s ++ t ++ u) ≡ s ++ t ++ u
  three_all = rw (append-nil) at (take-append_exact (s ++ t ++ u) [] 132 three-length)

module _ (x px py : ℕ) (hx : x < default_prime) (hpx : px < default_prime)
    (hpy : py < default_prime) where
  -- What holds of three texts of 44 characters holds of the share.
  thirds_of :
      {R : Bytes → Bytes → Bytes → Type 0}
      → ((s t u : Bytes) → length s ≡ 44 → length t ≡ 44 → length u ≡ 44 → R s t u)
      → R (to_base64 (pos x)) (to_base64 (pos px)) (to_base64 (pos py))
  thirds_of lemma =
      lemma (to_base64 (pos x)) (to_base64 (pos px)) (to_base64 (pos py))
        (length-to_base64 x (fits x hx)) (length-to_base64 px (fits px hpx))
        (length-to_base64 py (fits py hpy))

  printed-length : length (print_pub_share x px py) ≡ 132
  printed-length = thirds_of three-length

  first_read : from_base64 (take 44 (print_pub_share x px py)) ≡ pos x
  first_read = ap from_base64 (thirds_of first_third) ∙ from_base64-to_base64 x (fits x hx)

  second_read : from_base64 (take 44 (drop 44 (print_pub_share x px py))) ≡ pos px
  second_read = ap from_base64 (thirds_of second_third) ∙ from_base64-to_base64 px (fits px hpx)

  third_block : from_base64 (take 44 (drop 88 (print_pub_share x px py))) ≡ pos py
  third_block = ap from_base64 (thirds_of last_third) ∙ from_base64-to_base64 py (fits py hpy)

  third_read : from_base64 (drop 88 (print_pub_share x px py)) ≡ pos py
  third_read = ap from_base64 (thirds_of drop_second) ∙ from_base64-to_base64 py (fits py hpy)

  is_valid_share-print_pub_share : is_valid_share (print_pub_share x px py) ≡ true
  unfolding is_valid_share
  is_valid_share-print_pub_share =
      rw (printed-length, first_read, second_read, third_block) (ground arith)

  share_triples-print_pub_share :
      share_triples (length (print_pub_share x px py) / 132) 0 (print_pub_share x px py)
      ≡ (pos x, pos px, pos py) ∷ []
  unfolding share_triples
  share_triples-print_pub_share =
      rw (printed-length, thirds_of three_all, first_read, second_read, third_read)

-- Coordinates below the prime.
pub record IsPrintable (share : ℕ × ℕ × ℕ) : Type 0 where
  pub number : share.0 < default_prime
  pub x_coordinate : share.1 < default_prime
  pub y_coordinate : share.2 < default_prime

abbrev pub print_triple : ℕ × ℕ × ℕ → Bytes
print_triple (x, px, py) = print_pub_share x px py

abbrev pub triple_of : ℕ × ℕ × ℕ → Triple
triple_of (x, px, py) = (pos x, pos px, pos py)

-- Two printed shares add up to what their triples add up to.
pub combine_ecdsa_pubs-print_triple :
    {P : Type 0} (curve : Curve P) (share share₁ : ℕ × ℕ × ℕ)
    → IsPrintable share
    → IsPrintable share₁
    → combine_ecdsa_pubs curve (print_triple share ∷ print_triple share₁ ∷ [])
      ≡ add_pubs curve (
          secret_pubs curve default_prime
            (pos share.0 ∷ pos share₁.0 ∷ [])
            0
            (triple_of share ∷ triple_of share₁ ∷ []))
unfolding combine_ecdsa_pubs decode_pub_shares pub_parts pub_part
combine_ecdsa_pubs-print_triple curve (x, px, py) (y, qx, qy) h k = rw (
  is_valid_share-print_pub_share x px py h.number h.x_coordinate h.y_coordinate,
  is_valid_share-print_pub_share y qx qy k.number k.x_coordinate k.y_coordinate,
  share_triples-print_pub_share x px py h.number h.x_coordinate h.y_coordinate,
  share_triples-print_pub_share y qx qy k.number k.x_coordinate k.y_coordinate,
  combine_ecdsa_pubs,
  decode_pub_shares,
)
