-- ===== src/Sssa/PubFirst/Tests.antt =====
-- `CombinePubFirst` on the shares of `TestLibraryCombine2`, over the numbers modulo the prime as
-- a curve.
use address_verification.Base.{ℕ, ◌+◌, ◌%◌, ◌≡◌, refl, [], ◌∷◌, some, arith, Bytes, codes}
use address_verification.Sssa.Field.{default_prime}
use address_verification.Sssa.Combine.{combine}
use address_verification.Sssa.PubFirst.{Crypto, combine_pub_first}
use address_verification.Sssa.PubFirst.Agreement.{combine_pub_first-combine}

abbrev numbers : Crypto ℕ
numbers = record {
  order = default_prime;
  base_mult = λ k. k;
  add = λ a b. some ((a + b) % default_prime);
  nil_key = 0;
}

abbrev first_share : Bytes
first_share =
    codes "AAAAAAAAAAAAAAAAAAAAAAAAAAAAAAAAAAAAAAAAAAE=Uv8TKu9w935MhVhKudhksXv1QQO_KijTVQ5yCWQNaL4="

abbrev second_share : Bytes
second_share =
    codes "AAAAAAAAAAAAAAAAAAAAAAAAAAAAAAAAAAAAAAAAAAI=dwOoQA6zD-kc0KQHm7srZ7sePn_pkOIalCZGbTD1WrI="

combine_pub_first-combine_example :
    combine_pub_first numbers (first_share ∷ second_share ∷ [])
    ≡ combine (first_share ∷ second_share ∷ [])
combine_pub_first-combine_example =
    combine_pub_first-combine numbers first_share second_share [] refl (λ a b. (_, refl))
      (omega arith)
