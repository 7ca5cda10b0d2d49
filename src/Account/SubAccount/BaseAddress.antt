-- ===== src/Account/SubAccount/BaseAddress.antt =====
-- What a base address says of the key that it is made of.
use address_verification.Base.{
  ℕ, suc, ◌^◌, ◌%◌, ◌<◌, ◌≤◌, ◌≡◌, ◌↔◌, refl, sym, ap, ap₂, ◌∙◌, [], ◌∷◌, ◌++◌, arith, ◌==◌,
  if◌then◌else◌, Bytes, length, take, drop, replicate, length-replicate, length-take,
  take-append_exact,
}
use address_verification.Account.SubAccount.{
  Point, ecdsa_pk_compression, copy, generate_base_ab_address,
}

copy_exact : (target source : Bytes) → length source ≡ length target → copy target source ≡ source
copy_exact [] [] h = refl
copy_exact [] (y ∷ source) h = absurd (omega arith)
copy_exact (x ∷ target) [] h = absurd (omega arith)
copy_exact (x ∷ target) (y ∷ source) h =
    ap (λ l. y ∷ l) (copy_exact target source (omega (arith, h)))

first_byte : Bytes → ℕ
first_byte [] = 0
first_byte (b ∷ _) = b

-- `PaddedBigBytes` of a number that fits has the length asked for, and tells the number.
module _ (padded : ℕ → ℕ → Bytes)
    (padded_length : (n size : ℕ) → n < 256 ^ size → length (padded n size) ≡ size)
    (value : Bytes → ℕ)
    (padded_value : (n size : ℕ) → n < 256 ^ size → value (padded n size) ≡ n) where
  length-ecdsa_pk_compression :
      (p : Point) → p.x < 256 ^ 32 → length (ecdsa_pk_compression padded p) ≡ 33
  unfolding ecdsa_pk_compression
  length-ecdsa_pk_compression p h = ap suc (padded_length p.x 32 h)

  -- A compressed key is its first coordinate and the parity of the second one.
  compression_iff :
      (p q : Point)
      → p.x < 256 ^ 32
      → q.x < 256 ^ 32
      → (ecdsa_pk_compression padded p ≡ ecdsa_pk_compression padded q)
        ↔ ((p.x ≡ q.x) × (p.y % 2 ≡ q.y % 2))
  unfolding ecdsa_pk_compression first_byte
  compression_iff p q hp hq = (
    λ e. (
      sym (padded_value p.x 32 hp) ∙ ap (λ l. value (drop 1 l)) e ∙ padded_value q.x 32 hq,
      parity (ap first_byte e),
    ),
    λ (ex, ey). ap₂ (λ x y. (if y == 1 then 3 else 2) ∷ padded x 32) ex ey,
  )
    where
      parity :
          ◌≡◌ {A = ℕ} (if p.y % 2 == 1 then 3 else 2) (if q.y % 2 == 1 then 3 else 2)
          → p.y % 2 ≡ q.y % 2
      parity e = ground arith

  front :
      (size : ℕ) (b a : Point)
      → 66 ≤ size
      → a.x < 256 ^ 32
      → take 33 (generate_base_ab_address padded size b a) ≡ ecdsa_pk_compression padded a
  unfolding generate_base_ab_address
  front size b a h bound =
      let c = ecdsa_pk_compression padded a in
      let size_c = length-ecdsa_pk_compression a bound in
      let room : length (take 33 (replicate size 0)) ≡ 33 =
        length-take 33 (replicate size 0) ∙ ground (arith, length-replicate {A = ℕ} size 0) in
      ap (λ l. take 33 (l ++ copy (drop 33 (replicate size 0)) (ecdsa_pk_compression padded b)))
        (copy_exact (take 33 (replicate size 0)) c (size_c ∙ sym room))
      ∙ take-append_exact c _ 33 size_c

  -- Two keys whose first coordinates fit have the same base address, in an array of 66 bytes or more,
  -- if and only if these coordinates are equal, and the second ones are both even or both odd.
  pub generate_base_ab_address_iff :
      (size : ℕ) (b p q : Point)
      → 66 ≤ size
      → p.x < 256 ^ 32
      → q.x < 256 ^ 32
      → (generate_base_ab_address padded size b p ≡ generate_base_ab_address padded size b q)
        ↔ ((p.x ≡ q.x) × (p.y % 2 ≡ q.y % 2))
  unfolding generate_base_ab_address
  generate_base_ab_address_iff size b p q h hp hq = (
    λ e.
        (compression_iff p q hp hq).0
          (sym (front size b p h hp) ∙ ap (take 33) e ∙ front size b q h hq),
    λ e.
        ap
          (λ c.
            copy (take 33 (replicate size 0)) c
            ++ copy (drop 33 (replicate size 0)) (ecdsa_pk_compression padded b))
          ((compression_iff p q hp hq).1 e),
  )
